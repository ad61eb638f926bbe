-- ===== src/Transport/Manager/Active.antt =====
-- apps/xfs-server/src/host-transport/host-transport-manager.service.ts, `setActive`: which listeners run.
use atm_xfs_simulator.Common.{
  ◌≡◌, refl, sym, ap, ◌∙◌, subst, ◌↔◌, ◌≢◌, ◌⊎◌, String, str_eq, eq_iff, Bool, true, false, ◌&&◌,
  ◌||◌, not, Bool-cases, some, inl, inr, List, [], ◌∷◌, Result, ok, err, if◌then◌else◌,
}
use atm_xfs_simulator.Transport.Manager.{
  HostTransportKind, in_process, iso8583_tcp, iso20022_http, kind_eq, is_peer, HostTransportConfig,
  TransportManager, TransportError, Outside, Answer, bind_failed, find_row, is_running, set_enabled,
  start_row, start_config, stop_peers, activate, set_active, with_enabled,
}
use mathlib.Core.Bool.{or-true}
use atm_xfs_simulator.Transport.Manager.Peers.{
  has_peer, has_row, differ, stop_peers-running, stop_peers-has_row, All-Known_self, find_row-id,
  find_row-has_row,
}

abbrev pub IsOk : Result TransportError HostTransportConfig → Type 0
IsOk (ok r) = Unit
IsOk (err e) = ⊥

abbrev start_stopped : Outside → TransportManager → HostTransportConfig → Answer
start_stopped outside m r =
    if outside r
    then (
      ok (with_enabled true r),
      record { rows = set_enabled true r.id m.rows; running = r.id ∷ m.running },
    )
    else (err bind_failed, m)

-- After the start of a row: other listeners are as before, and it runs exactly when the answer is no error.
abbrev IsStart : TransportManager → HostTransportConfig → String → Answer → Type 0
IsStart m r x (answer, m') =
    (is_running x m'.running ≡ is_running x m.running)
    × (IsOk answer ↔ (is_running r.id m'.running ≡ true))

start_row-IsStart :
    (outside : Outside) (m : TransportManager) (r : HostTransportConfig) (x : String)
    → str_eq r.id x ≡ false
    → IsStart m r x (start_row outside m (some r))
unfolding is_running
start_row-IsStart outside m r x other = elim (Bool-cases (is_running r.id m.running)) [
  | inl runs ↦
      subst (λ (b : Bool). IsStart m r x (if b then (ok r, m) else start_stopped outside m r))
        (sym runs) (refl, (λ u. runs, λ e. tt))
  | inr idle ↦
      subst (λ (b : Bool). IsStart m r x (if b then (ok r, m) else start_stopped outside m r))
        (sym idle)
        (elim (Bool-cases (outside r)) [
          | inl binds ↦
              subst
                (λ (b : Bool). IsStart m r x (
                  if b
                  then (
                    ok (with_enabled true r),
                    record { rows = set_enabled true r.id m.rows; running = r.id ∷ m.running },
                  )
                  else (err bind_failed, m)))
                (sym binds)
                (
                  ap (λ (b : Bool). b || is_running x m.running) other,
                  (
                    λ u.
                        ap (λ (b : Bool). b || is_running r.id m.running)
                          ((eq_iff r.id r.id).1 refl),
                    λ e. tt,
                  ),
                )
          | inr fails ↦
              subst
                (λ (b : Bool). IsStart m r x (
                  if b
                  then (
                    ok (with_enabled true r),
                    record { rows = set_enabled true r.id m.rows; running = r.id ∷ m.running },
                  )
                  else (err bind_failed, m)))
                (sym fails) (refl, (λ u. absurd u, λ e. absurd (differ (sym e ∙ idle))))
        ])
]

-- Which listeners run after the activation of a row.
set_active-running :
    (outside : Outside) (id x : String) (m : TransportManager) (target : HostTransportConfig)
    → find_row id m.rows ≡ some target
    → str_eq id x ≡ false
    → (is_running x (set_active outside id m).1.running
        ≡ (not (has_peer target x m.rows) && is_running x m.running))
      × (IsOk (set_active outside id m).0
          ↔ (is_running id (set_active outside id m).1.running ≡ true))
unfolding set_active start_config
set_active-running outside id x m target e other =
    let (name, there) = find_row-id id m.rows target e in
    let m' = stop_peers target m.rows m in
    let all = All-Known_self m.rows in
    let still : has_row target.id m'.rows ≡ true =
      stop_peers-has_row target m.rows m target.id all
      ∙ ap (λ (i : String). has_row i m.rows) name
      ∙ there in
    let (r, found, same) = find_row-has_row target.id m'.rows still in
    let started =
      start_row-IsStart outside m' r x (ap (λ (i : String). str_eq i x) (same ∙ name) ∙ other) in
    let path : start_row outside m' (some r) ≡ activate outside m (find_row id m.rows) =
      sym (ap (activate outside m) e ∙ ap (start_row outside m') found) in
    let others = started.0 ∙ stop_peers-running target m.rows m x all in
    let self =
      subst
        (λ (i : String).
          IsOk (start_row outside m' (some r)).0
          ↔ (is_running i (start_row outside m' (some r)).1.running ≡ true))
        (same ∙ name) (started.1) in
    subst
      (λ (a : Answer).
        (is_running x a.1.running ≡ (not (has_peer target x m.rows) && is_running x m.running))
        × (IsOk a.0 ↔ (is_running id a.1.running ≡ true)))
      path (others, self)

-- A row with the name has the kind.
abbrev pub HasKind : HostTransportKind → String → List HostTransportConfig → Type 0
HasKind k x [] = ⊥
HasKind k x (r ∷ rs) = ((r.kind ≡ k) × (r.id ≡ x)) ⊎ HasKind k x rs

kind_eq_iff : (a b : HostTransportKind) → (kind_eq a b ≡ true) ↔ (a ≡ b)
kind_eq_iff in_process in_process = (λ e. refl, λ e. refl)
kind_eq_iff in_process iso8583_tcp = (λ e. absurd (differ (sym e)), λ e. cc)
kind_eq_iff in_process iso20022_http = (λ e. absurd (differ (sym e)), λ e. cc)
kind_eq_iff iso8583_tcp in_process = (λ e. absurd (differ (sym e)), λ e. cc)
kind_eq_iff iso8583_tcp iso8583_tcp = (λ e. refl, λ e. refl)
kind_eq_iff iso8583_tcp iso20022_http = (λ e. absurd (differ (sym e)), λ e. cc)
kind_eq_iff iso20022_http in_process = (λ e. absurd (differ (sym e)), λ e. cc)
kind_eq_iff iso20022_http iso8583_tcp = (λ e. absurd (differ (sym e)), λ e. cc)
kind_eq_iff iso20022_http iso20022_http = (λ e. refl, λ e. refl)

or_split : (a b : Bool) → (a || b) ≡ true → (a ≡ true) ⊎ (b ≡ true)
or_split true b e = inl refl
or_split false b e = inr e

and_split : (a b : Bool) → (a && b) ≡ true → (a ≡ true) × (b ≡ true)
and_split true b e = (refl, e)
and_split false b e = absurd (differ (sym e))

has_peer-HasKind :
    (target : HostTransportConfig) (x : String) (rs : List HostTransportConfig)
    → has_peer target x rs ≡ true
    → HasKind target.kind x rs
has_peer-HasKind target x [] e = absurd (differ (sym e))
has_peer-HasKind target x (r ∷ rs) e =
    elim (or_split (is_peer target r && str_eq r.id x) (has_peer target x rs) e) [
      | inl here ↦
          let (peer, same) = and_split (is_peer target r) (str_eq r.id x) here in
          let (kind, other) =
            and_split (kind_eq r.kind target.kind) (not (str_eq r.id target.id)) peer in
          inl ((kind_eq_iff r.kind target.kind).0 kind, (eq_iff r.id x).0 same)
      | inr later ↦ inr (has_peer-HasKind target x rs later)
    ]

HasKind-has_peer :
    (target : HostTransportConfig) (x : String) (rs : List HostTransportConfig)
    → str_eq target.id x ≡ false
    → HasKind target.kind x rs
    → has_peer target x rs ≡ true
HasKind-has_peer target x [] apart h = absurd h
HasKind-has_peer target x (r ∷ rs) apart (inl (kind, name)) =
    let other : str_eq r.id target.id ≡ false = elim (Bool-cases (str_eq r.id target.id)) [
      | inl same ↦ absurd (
          differ
            (sym ((eq_iff target.id x).1 (sym ((eq_iff r.id target.id).0 same) ∙ name)) ∙ apart))
      | inr miss ↦ miss
    ] in
    ap (λ (b : Bool). ((b && not (str_eq r.id target.id)) && str_eq r.id x) || has_peer target x rs)
      ((kind_eq_iff r.kind target.kind).1 kind)
    ∙ ap (λ (b : Bool). (not b && str_eq r.id x) || has_peer target x rs) other
    ∙ ap (λ (b : Bool). b || has_peer target x rs) ((eq_iff r.id x).1 name)
HasKind-has_peer target x (r ∷ rs) apart (inr later) =
    ap (λ (b : Bool). (is_peer target r && str_eq r.id x) || b)
      (HasKind-has_peer target x rs apart later)
    ∙ or-true (is_peer target r && str_eq r.id x)

true_iff : (h r : Bool) → ((not h && r) ≡ true) ↔ ((r ≡ true) × (h ≡ false))
true_iff true r = (λ e. absurd (differ (sym e)), λ both. absurd (differ (both.1)))
true_iff false r = (λ e. (e, refl), λ both. both.0)

-- Activating a row that is there stops each listener of another row of its kind, and no other: another
-- name runs afterwards exactly when it ran before and is the name of no row of this kind. The row itself
-- runs afterwards exactly when the answer is no error.
pub set_active-HasKind :
    (outside : Outside) (id x : String) (m : TransportManager) (target : HostTransportConfig)
    → find_row id m.rows ≡ some target
    → id ≢ x
    → ((is_running x (set_active outside id m).1.running ≡ true)
        ↔ ((is_running x m.running ≡ true) × ¬ HasKind target.kind x m.rows))
      × (IsOk (set_active outside id m).0
          ↔ (is_running id (set_active outside id m).1.running ≡ true))
set_active-HasKind outside id x m target e ne =
    let apart : str_eq id x ≡ false = elim (Bool-cases (str_eq id x)) [
      | inl same ↦ absurd (ne ((eq_iff id x).0 same))
      | inr miss ↦ miss
    ] in
    let (others, self) = set_active-running outside id x m target e apart in
    let away : str_eq target.id x ≡ false =
      ap (λ (i : String). str_eq i x) (find_row-id id m.rows target e).0 ∙ apart in
    let peer = has_peer target x m.rows in
    let both = true_iff peer (is_running x m.running) in
    (
      (
        λ runs.
            let (ran, free) = both.0 (sym others ∙ runs) in
            (ran, λ has. differ (sym (HasKind-has_peer target x m.rows away has) ∙ free)),
        λ (ran, lacks).
            others
            ∙ both.1 (
              ran,
              elim (Bool-cases peer) [
                | inl yes_peer ↦ absurd (lacks (has_peer-HasKind target x m.rows yes_peer))
                | inr miss ↦ miss
              ],
            ),
      ),
      self,
    )
