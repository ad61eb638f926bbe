-- ===== src/Transport/Chunks.antt =====
-- apps/xfs-server/src/host-transport/iso8583-tcp.transport.ts: the messages of a socket and the chunks
-- in which their bytes come.
use atm_xfs_simulator.Common.{
  ℕ, zero, suc, ◌+◌, ◌*◌, ◌/◌, ◌%◌, ◌≡◌, ◌≤◌, ◌<◌, refl, sym, ap, ◌∙◌, subst, false, Bool-cases,
  Option, none, some, inl, inr, List, [], ◌∷◌, ◌++◌, ltb, length, take, drop, map, arith, All,
  length-append, length-drop, take-append, drop-append,
}
use mathlib.Core.List.{append_assoc, append-nil}
use atm_xfs_simulator.Transport.Framing.{
  Received, read_frame, add_message, after_frame, drain, on_data, join_messages, receive,
  write_frame,
}

take-append_le : (n : ℕ) (xs ys : List ℕ) → n ≤ length xs → take n (xs ++ ys) ≡ take n xs
take-append_le zero xs ys h = refl
take-append_le (suc n) [] ys h = absurd (omega arith)
take-append_le (suc n) (x ∷ xs) ys h = ap (λ z. x ∷ z) (take-append_le n xs ys (omega arith))

drop-append_le : (n : ℕ) (xs ys : List ℕ) → n ≤ length xs → drop n (xs ++ ys) ≡ drop n xs ++ ys
drop-append_le zero xs ys h = refl
drop-append_le (suc n) [] ys h = absurd (omega arith)
drop-append_le (suc n) (x ∷ xs) ys h = drop-append_le n xs ys (omega arith)

-- What a look at the first bytes finds: nothing, or a message that stays when bytes are added.
data Look (buf : List ℕ) : Type 0 where
  incomplete : read_frame buf ≡ none → Look buf
  complete :
      (m rest : List ℕ)
      → read_frame buf ≡ some (m, rest)
      → length rest < length buf
      → ((extra : List ℕ) → read_frame (buf ++ extra) ≡ some (m, rest ++ extra))
      → Look buf

look : (buf : List ℕ) → Look buf
unfolding read_frame
look [] = incomplete refl
look (a ∷ []) = incomplete refl
look (a ∷ b ∷ rest) = elim (Bool-cases (ltb (length rest) (a * 256 + b))) [
  | inl short ↦ incomplete (rw short refl)
  | inr long ↦
      let n = a * 256 + b in
      let inside : n ≤ length rest = ground (arith, long) in
      complete (map (λ c. c % 128) (take n rest)) (drop n rest) (rw long refl)
        (omega (arith, length-drop n rest))
        (λ (extra : List ℕ).
          let still : ltb (length (rest ++ extra)) n ≡ false =
            ground (arith, inside, length-append rest extra) in
          rw (still, take-append_le n rest extra inside, drop-append_le n rest extra inside) refl)
]

-- More fuel than bytes changes nothing.
drain_fuel : (g h : ℕ) (buf : List ℕ) → length buf ≤ g → length buf ≤ h → drain g buf ≡ drain h buf
unfolding drain
drain_fuel zero zero buf hg hh = refl
drain_fuel zero (suc h) buf hg hh = elim (look buf) [
  | incomplete e ↦ sym (ap (after_frame (drain h) buf) e)
  | complete m rest e shorter kept ↦ absurd (omega (arith, shorter, hg))
]
drain_fuel (suc g) zero buf hg hh = elim (look buf) [
  | incomplete e ↦ ap (after_frame (drain g) buf) e
  | complete m rest e shorter kept ↦ absurd (omega (arith, shorter, hh))
]
drain_fuel (suc g) (suc h) buf hg hh = elim (look buf) [
  | incomplete e ↦ rw e refl
  | complete m rest e shorter kept ↦
      rw e (ap (add_message m) (drain_fuel g h rest (omega arith) (omega arith)))
]

-- Bytes that are added are read after those that were there.
drain-append :
    (f g h : ℕ) (buf extra : List ℕ)
    → length buf ≤ f
    → length buf + length extra ≤ g
    → length buf + length extra ≤ h
    → drain g (buf ++ extra) ≡ join_messages (drain f buf).0 (drain h ((drain f buf).1 ++ extra))
unfolding drain
drain-append zero g h buf extra hf hg hh =
    drain_fuel g h (buf ++ extra) (omega (arith, length-append buf extra))
      (omega (arith, length-append buf extra))
drain-append (suc f) zero h buf extra hf hg hh = elim (look buf) [
  | incomplete e ↦
      drain_fuel zero h (buf ++ extra) (omega (arith, length-append buf extra))
        (omega (arith, length-append buf extra))
      ∙ sym (
          ap
            (λ (o : Option (List ℕ × List ℕ)).
              let r = after_frame (drain f) buf o in join_messages r.0 (drain h (r.1 ++ extra)))
            e)
  | complete m rest e shorter kept ↦ absurd (omega (arith, shorter, hg))
]
drain-append (suc f) (suc g) h buf extra hf hg hh = elim (look buf) [
  | incomplete e ↦
      let stays = ap (after_frame (drain f) buf) e in
      drain_fuel (suc g) h (buf ++ extra) (omega (arith, length-append buf extra))
        (omega (arith, length-append buf extra))
      ∙ sym (ap (λ (r : Received). join_messages r.0 (drain h (r.1 ++ extra))) stays)
  | complete m rest e shorter kept ↦
      ap (after_frame (drain g) (buf ++ extra)) (kept extra)
      ∙ ap (add_message m) (drain-append f g h rest extra (omega arith) (omega arith) (omega arith))
      ∙ sym (
          ap
            (λ (o : Option (List ℕ × List ℕ)).
              let r = after_frame (drain f) buf o in join_messages r.0 (drain h (r.1 ++ extra)))
            e)
]

abbrev pub concat : List (List ℕ) → List ℕ
concat [] = []
concat (c ∷ cs) = c ++ concat cs

-- Bytes that hold no message yet.
drained :
    (f : ℕ) (buf : List ℕ)
    → length buf ≤ f
    → drain (length (drain f buf).1) (drain f buf).1 ≡ ([], (drain f buf).1)
unfolding drain
drained zero buf h = drain_fuel (length buf) zero buf (omega arith) h
drained (suc f) buf h = elim (look buf) [
  | incomplete e ↦
      subst
        (λ (o : Option (List ℕ × List ℕ)).
          drain (length (after_frame (drain f) buf o).1) (after_frame (drain f) buf o).1
          ≡ ([], (after_frame (drain f) buf o).1))
        (sym e)
        (drain_fuel (length buf) (suc f) buf (omega arith) h ∙ ap (after_frame (drain f) buf) e)
  | complete m rest e shorter kept ↦
      subst
        (λ (o : Option (List ℕ × List ℕ)).
          drain (length (after_frame (drain f) buf o).1) (after_frame (drain f) buf o).1
          ≡ ([], (after_frame (drain f) buf o).1))
        (sym e) (drained f rest (omega (arith, shorter, h)))
]

length-drain : (f : ℕ) (buf : List ℕ) → length (drain f buf).1 ≤ length buf
unfolding drain
length-drain zero buf = omega arith
length-drain (suc f) buf = elim (look buf) [
  | incomplete e ↦
      subst (λ (o : Option (List ℕ × List ℕ)). length (after_frame (drain f) buf o).1 ≤ length buf)
        (sym e) (omega arith)
  | complete m rest e shorter kept ↦
      subst (λ (o : Option (List ℕ × List ℕ)). length (after_frame (drain f) buf o).1 ≤ length buf)
        (sym e) (omega (arith, length-drain f rest, shorter))
]

receive-drain :
    (chunks : List (List ℕ)) (buf : List ℕ)
    → drain (length buf) buf ≡ ([], buf)
    → receive buf chunks ≡ drain (length (buf ++ concat chunks)) (buf ++ concat chunks)
unfolding receive on_data
receive-drain [] buf h = sym (ap (λ (b : List ℕ). drain (length b) b) (append-nil buf) ∙ h)
receive-drain (c ∷ cs) buf h =
    let all = buf ++ c in
    let r = drain (length all) all in
    let whole = all ++ concat cs in
    let left = r.1 ++ concat cs in
    let size = length-append all (concat cs) in
    let left_size = length-append r.1 (concat cs) in
    let shorter = length-drain (length all) all in
    ap (join_messages r.0) (
      receive-drain cs r.1 (drained (length all) all (omega arith))
      ∙ drain_fuel (length left) (length whole) left (omega arith)
          (omega (arith, size, left_size, shorter)))
    ∙ sym (
        drain-append (length all) (length whole) (length whole) all (concat cs) (omega arith)
          (omega (arith, size)) (omega (arith, size)))
    ∙ ap (λ (b : List ℕ). drain (length b) b) (append_assoc buf c (concat cs))

-- The bytes of messages, one after the other.
abbrev pub frames : List (List ℕ) → List ℕ
frames [] = []
frames (m ∷ ms) = write_frame m ++ frames ms

abbrev pub IsMessage : List ℕ → Type 0
IsMessage m = (length m < 0x10000) × All (λ (c : ℕ). c < 128) m

map-ascii : (m : List ℕ) → All (λ (c : ℕ). c < 128) m → map (λ c. c % 128) m ≡ m
map-ascii [] h = refl
map-ascii (c ∷ m) (hc, h) =
    let same : c % 128 ≡ c = omega (arith, hc) in λ i. same i ∷ map-ascii m h i

read_frame-write_frame :
    (m rest : List ℕ) → IsMessage m → read_frame (write_frame m ++ rest) ≡ some (m, rest)
unfolding read_frame
read_frame-write_frame m rest (small, plain) =
    let n : length m / 256 * 256 + length m % 256 ≡ length m = omega arith in
    let inside : ltb (length (m ++ rest)) (length m) ≡ false =
      ground (arith, length-append m rest) in
    rw (n, inside, take-append m rest, drop-append m rest, map-ascii m plain) refl

drain-frames :
    (f : ℕ) (ms : List (List ℕ))
    → All IsMessage ms
    → length (frames ms) ≤ f
    → drain f (frames ms) ≡ (ms, [])
unfolding drain read_frame
drain-frames zero [] h room = refl
drain-frames (suc f) [] h room = refl
drain-frames zero (m ∷ ms) h room = absurd (omega arith)
drain-frames (suc f) (m ∷ ms) (hm, h) room =
    ap (after_frame (drain f) (frames (m ∷ ms))) (read_frame-write_frame m (frames ms) hm)
    ∙ ap (add_message m) (drain-frames f ms h (omega (arith, length-append m (frames ms))))

-- Messages of ASCII text below 65,536 characters, each written with its length before it, are received
-- as they were sent, whatever chunks the bytes come in, and no byte is left.
pub receive-write_frame :
    (ms chunks : List (List ℕ))
    → All IsMessage ms
    → concat chunks ≡ frames ms
    → receive [] chunks ≡ (ms, [])
unfolding drain
receive-write_frame ms chunks h e =
    receive-drain chunks [] refl
    ∙ ap (λ (b : List ℕ). drain (length b) b) e
    ∙ drain-frames (length (frames ms)) ms h (omega arith)
