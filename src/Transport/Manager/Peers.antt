-- ===== src/Transport/Manager/Peers.antt =====
-- apps/xfs-server/src/host-transport/host-transport-manager.service.ts, `setActive`: the peers of a row are
-- stopped.
use atm_xfs_simulator.Common.{
  ◌≡◌, ◌≢◌, refl, sym, ap, ◌∙◌, subst, inl, inr, String, str_eq, eq_iff, Bool, true, false, ◌&&◌,
  ◌||◌, not, Bool-cases, Option, none, some, List, [], ◌∷◌, if◌then◌else◌, All,
}
use mathlib.Core.Bool.{and-false, or-true}
use atm_xfs_simulator.Transport.Manager.{
  HostTransportConfig, TransportManager, find_row, is_running, remove_id, set_enabled, stopped,
  stop_row, stop_config, is_peer, stop_peers, with_enabled,
}

-- Two names that are the same to a third are the same.
same_name : {x y : String} → str_eq x y ≡ true → x ≡ y
same_name {x} {y} e = (eq_iff x y).0 e

pub differ : true ≢ false
differ e = cc

not_twice : (a b c : Bool) → b ≡ a → (not a && c) ≡ (not a && (b || c))
not_twice true b c e = refl
not_twice false b c e = sym (ap (λ (t : Bool). t || c) e)

not_both : (a b c : Bool) → (b && a) ≡ false → (b || (not a && c)) ≡ (not a && (b || c))
not_both true true c h = absurd (differ h)
not_both true false c h = refl
not_both false b c h = refl

distinct : (y id x : String) → str_eq y id ≡ false → (str_eq y x && str_eq id x) ≡ false
distinct y id x other = elim (Bool-cases (str_eq y x)) [
  | inr no_y ↦ ap (λ (b : Bool). b && str_eq id x) no_y
  | inl yes_y ↦ elim (Bool-cases (str_eq id x)) [
    | inr no_id ↦ ap (λ (b : Bool). str_eq y x && b) no_id ∙ and-false (str_eq y x)
    | inl yes_id ↦
        absurd (differ (sym ((eq_iff y id).1 (same_name yes_y ∙ sym (same_name yes_id))) ∙ other))
  ]
]

is_running-remove_id :
    (id x : String) (xs : List String)
    → is_running x (remove_id id xs) ≡ (not (str_eq id x) && is_running x xs)
unfolding is_running remove_id
is_running-remove_id id x [] = sym (and-false (not (str_eq id x)))
is_running-remove_id id x (y ∷ ys) = elim (Bool-cases (str_eq y id)) [
  | inl same ↦
      ap (λ (b : Bool). is_running x (if b then remove_id id ys else y ∷ remove_id id ys)) same
      ∙ is_running-remove_id id x ys
      ∙ not_twice (str_eq id x) (str_eq y x) (is_running x ys)
          (ap (λ (z : String). str_eq z x) (same_name same))
  | inr other ↦
      ap (λ (b : Bool). is_running x (if b then remove_id id ys else y ∷ remove_id id ys)) other
      ∙ ap (λ (b : Bool). str_eq y x || b) (is_running-remove_id id x ys)
      ∙ not_both (str_eq id x) (str_eq y x) (is_running x ys) (distinct y id x other)
]

-- The peers of a row that have a name.
abbrev pub has_peer : HostTransportConfig → String → List HostTransportConfig → Bool
has_peer target x [] = false
has_peer target x (r ∷ rs) = (is_peer target r && str_eq r.id x) || has_peer target x rs

abbrev pub has_row : String → List HostTransportConfig → Bool
has_row id [] = false
has_row id (r ∷ rs) = str_eq r.id id || has_row id rs

abbrev pub Known : List HostTransportConfig → HostTransportConfig → Type 0
Known rows r = has_row r.id rows ≡ true

has_row-set_enabled :
    (b : Bool) (id x : String) (rows : List HostTransportConfig)
    → has_row x (set_enabled b id rows) ≡ has_row x rows
unfolding set_enabled
has_row-set_enabled b id x [] = refl
has_row-set_enabled b id x (r ∷ rs) = elim (Bool-cases (str_eq r.id id)) [
  | inl same ↦
      ap (λ (t : Bool). has_row x (if t then with_enabled b r ∷ rs else r ∷ set_enabled b id rs))
        same
  | inr other ↦
      ap (λ (t : Bool). has_row x (if t then with_enabled b r ∷ rs else r ∷ set_enabled b id rs))
        other
      ∙ ap (λ (t : Bool). str_eq r.id x || t) (has_row-set_enabled b id x rs)
]

pub find_row-has_row :
    (id : String) (rows : List HostTransportConfig)
    → has_row id rows ≡ true
    → (r : HostTransportConfig) × (find_row id rows ≡ some r) × (r.id ≡ id)
unfolding find_row
find_row-has_row id [] h = absurd (differ (sym h))
find_row-has_row id (r ∷ rs) h = elim (Bool-cases (str_eq r.id id)) [
  | inl same ↦ (r, ap (λ (b : Bool). if b then some r else find_row id rs) same, same_name same)
  | inr other ↦
      let (q, e, n) =
        find_row-has_row id rs (sym (ap (λ (b : Bool). b || has_row id rs) other) ∙ h) in
      (q, ap (λ (b : Bool). if b then some r else find_row id rs) other ∙ e, n)
]

-- Stopping a row that is there.
stop_config-known :
    (id : String) (m : TransportManager)
    → has_row id m.rows ≡ true
    → (stop_config id m).1 ≡ stopped id m
unfolding stop_config
stop_config-known id m h =
    let (r, e, n) = find_row-has_row id m.rows h in
    ap (λ (o : Option HostTransportConfig). (stop_row m o).1) e ∙ ap (λ (i : String). stopped i m) n

All-Known :
    (b : Bool) (id : String) (rows rs : List HostTransportConfig)
    → All (Known rows) rs
    → All (Known (set_enabled b id rows)) rs
All-Known b id rows [] h = tt
All-Known b id rows (r ∷ rs) (hr, h) =
    (has_row-set_enabled b id r.id rows ∙ hr, All-Known b id rows rs h)

stop_one : (p s h run : Bool) → p ≡ true → (not h && (not s && run)) ≡ (not ((p && s) || h) && run)
stop_one true true true run e = refl
stop_one true true false run e = refl
stop_one true false h run e = refl
stop_one false s h run e = absurd (differ (sym e))

stop_none : (q h run : Bool) → (q ≡ true → run ≡ false) → (not h && run) ≡ (not (q || h) && run)
stop_none false h run e = refl
stop_none true h run e = ap (λ (b : Bool). not h && b) (e refl) ∙ and-false (not h)

and_left : (a b : Bool) → (a && b) ≡ true → a ≡ true
and_left true b e = refl
and_left false b e = absurd (differ (sym e))

and_right : (a b : Bool) → (a && b) ≡ true → b ≡ true
and_right true b e = e
and_right false b e = absurd (differ (sym e))

-- A row that is not stopped does not run, if it is a peer.
not_stopped :
    (p : Bool) (r x : String) (xs : List String)
    → (p && is_running r xs) ≡ false
    → (p && str_eq r x) ≡ true
    → is_running x xs ≡ false
not_stopped p r x xs idle both =
    let peer = and_left p (str_eq r x) both in
    subst (λ (i : String). is_running i xs ≡ false) (same_name (and_right p (str_eq r x) both))
      (sym (ap (λ (b : Bool). b && is_running r xs) peer) ∙ idle)

pub stop_peers-running :
    (target : HostTransportConfig) (rs : List HostTransportConfig) (m : TransportManager)
    (x : String)
    → All (Known m.rows) rs
    → is_running x (stop_peers target rs m).running
      ≡ (not (has_peer target x rs) && is_running x m.running)
unfolding stop_peers
stop_peers-running target [] m x h = refl
stop_peers-running target (r ∷ rs) m x (hr, h) =
    let p = is_peer target r in
    elim (Bool-cases (p && is_running r.id m.running)) [
      | inl stops ↦
          ap
            (λ (b : Bool).
              is_running x (stop_peers target rs (if b then (stop_config r.id m).1 else m)).running)
            stops
          ∙ ap (λ (t : TransportManager). is_running x (stop_peers target rs t).running)
              (stop_config-known r.id m hr)
          ∙ stop_peers-running target rs (stopped r.id m) x (All-Known false r.id m.rows rs h)
          ∙ ap (λ (b : Bool). not (has_peer target x rs) && b)
              (is_running-remove_id r.id x m.running)
          ∙ stop_one p (str_eq r.id x) (has_peer target x rs) (is_running x m.running)
              (and_left p (is_running r.id m.running) stops)
      | inr stays ↦
          ap
            (λ (b : Bool).
              is_running x (stop_peers target rs (if b then (stop_config r.id m).1 else m)).running)
            stays
          ∙ stop_peers-running target rs m x h
          ∙ stop_none (p && str_eq r.id x) (has_peer target x rs) (is_running x m.running)
              (not_stopped p r.id x m.running stays)
    ]

pub stop_peers-has_row :
    (target : HostTransportConfig) (rs : List HostTransportConfig) (m : TransportManager)
    (x : String)
    → All (Known m.rows) rs
    → has_row x (stop_peers target rs m).rows ≡ has_row x m.rows
unfolding stop_peers
stop_peers-has_row target [] m x h = refl
stop_peers-has_row target (r ∷ rs) m x (hr, h) =
    elim (Bool-cases (is_peer target r && is_running r.id m.running)) [
      | inl stops ↦
          ap
            (λ (b : Bool).
              has_row x (stop_peers target rs (if b then (stop_config r.id m).1 else m)).rows)
            stops
          ∙ ap (λ (t : TransportManager). has_row x (stop_peers target rs t).rows)
              (stop_config-known r.id m hr)
          ∙ stop_peers-has_row target rs (stopped r.id m) x (All-Known false r.id m.rows rs h)
          ∙ has_row-set_enabled false r.id x m.rows
      | inr stays ↦
          ap
            (λ (b : Bool).
              has_row x (stop_peers target rs (if b then (stop_config r.id m).1 else m)).rows)
            stays
          ∙ stop_peers-has_row target rs m x h
    ]

str_eq-same : (s : String) → str_eq s s ≡ true
str_eq-same s = (eq_iff s s).1 refl

has_row-later :
    (id : String) (r : HostTransportConfig) (rows : List HostTransportConfig)
    → has_row id rows ≡ true
    → has_row id (r ∷ rows) ≡ true
has_row-later id r rows h = ap (λ (b : Bool). str_eq r.id id || b) h ∙ or-true (str_eq r.id id)

All-later :
    (r : HostTransportConfig) (rows rs : List HostTransportConfig)
    → All (Known rows) rs
    → All (Known (r ∷ rows)) rs
All-later r rows [] h = tt
All-later r rows (q ∷ rs) (hq, h) = (has_row-later q.id r rows hq, All-later r rows rs h)

pub All-Known_self : (rows : List HostTransportConfig) → All (Known rows) rows
All-Known_self [] = tt
All-Known_self (r ∷ rows) = (
  ap (λ (b : Bool). b || has_row r.id rows) (str_eq-same r.id),
  All-later r rows rows (All-Known_self rows),
)

no_row : {r : HostTransportConfig} → none ≢ some r
no_row {r} e = cc

some-inj : {a b : HostTransportConfig} → some a ≡ some b → a ≡ b
some-inj {a} {b} e = cc

pub find_row-id :
    (id : String) (rows : List HostTransportConfig) (r : HostTransportConfig)
    → find_row id rows ≡ some r
    → (r.id ≡ id) × (has_row id rows ≡ true)
unfolding find_row
find_row-id id [] r e = absurd (no_row e)
find_row-id id (q ∷ rs) r e = elim (Bool-cases (str_eq q.id id)) [
  | inl same ↦
      let it = sym (ap (λ (b : Bool). if b then some q else find_row id rs) same) ∙ e in
      (
        ap (λ (c : HostTransportConfig). c.id) (sym (some-inj it)) ∙ same_name same,
        ap (λ (b : Bool). b || has_row id rs) same,
      )
  | inr other ↦
      let (n, h) =
        find_row-id id rs r
          (sym (ap (λ (b : Bool). if b then some q else find_row id rs) other) ∙ e) in
      (n, has_row-later id q rs h)
]
