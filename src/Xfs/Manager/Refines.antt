-- ===== src/Xfs/Manager/Refines.antt =====
-- apps/xfs-server/src/xfs/xfs-manager.service.ts: the manager as a function from names to devices.
use atm_xfs_simulator.Common.{
  ◌≡◌, ◌≢◌, refl, sym, ap, ◌∙◌, subst, String, str_eq, eq_iff, Bool, true, false, Bool-cases,
  Option, none, some, inl, inr, List, [], ◌∷◌, Result, ok, err, if◌then◌else◌,
}
use Prim.Native.String.{◌++◌ as append_text}
use mathlib.Core.Path.{fun_ext}
use atm_xfs_simulator.Xfs.{success, err_service_not_found, err_internal_error}
use atm_xfs_simulator.Xfs.Manager.{
  XfsCommand, XfsResponse, Service, Manager, new_manager, set_service, get_service, xfs_error,
  register_service, persist_command_log, respond, execute_on, execute,
}

-- The specification: which device a name stands for.
abbrev pub Registry : Type 0 → Type 0
Registry D = String → Option D

abbrev pub write : {D : Type 0} → String → D → Registry D → Registry D
write h d reg k = if str_eq h k then some d else reg k

abbrev pub registry_of : {D : Type 0} → List (String × D) → Registry D
registry_of services h = get_service h services

if_same :
    {A : Type 0} (b : Bool) (x y z : A)
    → (if b then x else z) ≡ (if b then x else if b then y else z)
if_same true x y z = refl
if_same false x y z = refl

if_swap :
    {A : Type 0} (a b : Bool) (x y z : A)
    → (a ≡ true → b ≡ true → ⊥)
    → (if a then x else if b then y else z) ≡ (if b then y else if a then x else z)
if_swap true true x y z h = absurd (h refl refl)
if_swap true false x y z h = refl
if_swap false true x y z h = refl
if_swap false false x y z h = refl

differ : true ≢ false
differ e = cc

apart : {j h : String} → str_eq j h ≡ false → j ≡ h → ⊥
apart {j} {h} other e = absurd (differ (sym ((eq_iff j h).1 e) ∙ other))

get_service-set_service :
    {D : Type 0} (k h : String) (d : D) (ms : List (String × D))
    → get_service k (set_service h d ms) ≡ write h d (registry_of ms) k
unfolding get_service set_service
get_service-set_service k h d [] = refl
get_service-set_service {D} k h d ((j, e) ∷ ms) = elim (Bool-cases (str_eq j h)) [
  | inl same ↦
      ap (λ (b : Bool). get_service k (if b then (j, d) ∷ ms else (j, e) ∷ set_service h d ms)) same
      ∙ subst
          (λ (i : String).
            (if str_eq i k then some d else get_service k ms)
            ≡ (if str_eq h k then some d else if str_eq i k then some e else get_service k ms))
          (sym ((eq_iff j h).0 same)) (if_same (str_eq h k) (some d) (some e) (get_service k ms))
  | inr other ↦
      ap (λ (b : Bool). get_service k (if b then (j, d) ∷ ms else (j, e) ∷ set_service h d ms))
        other
      ∙ ap (λ (o : Option D). if str_eq j k then some e else o) (get_service-set_service k h d ms)
      ∙ if_swap (str_eq j k) (str_eq h k) (some e) (some d) (get_service k ms)
          (λ jk hk. apart other ((eq_iff j k).0 jk ∙ sym ((eq_iff h k).0 hk)))
]

-- Requests to the manager, and the answers to the commands among them.
pub data Request (D P : Type 0) : Type 0 where
  register : (h_service : String) → D → Request D P
  command : (logged : Bool) → XfsCommand P → Request D P

module _ {D P : Type 0} (service : Service D P) where
  -- The envelope of an answer, which carries what the device gave or the message that it threw.
  abbrev pub spec_answer : XfsCommand P → Result String P → XfsResponse P
  spec_answer c (ok payload) = record {
    request_id = c.request_id;
    h_service = c.h_service;
    result = success;
    payload = some payload;
    error_detail = none;
  }
  spec_answer c (err message) = record {
    request_id = c.request_id;
    h_service = c.h_service;
    result = err_internal_error;
    payload = none;
    error_detail = some message;
  }

  abbrev pub spec_on : XfsCommand P → Registry D → Option D → XfsResponse P × Registry D
  spec_on c reg none = (
    record {
      request_id = c.request_id;
      h_service = c.h_service;
      result = err_service_not_found;
      payload = none;
      error_detail = some (append_text "Unknown hService: " c.h_service);
    },
    reg,
  )
  spec_on c reg (some d) =
      let (answer, d') = service.execute_command c.command_code c.payload d in
      (spec_answer c answer, write c.h_service d' reg)

  -- A command goes to the device of its name, and only that one changes.
  abbrev pub spec_execute : XfsCommand P → Registry D → XfsResponse P × Registry D
  spec_execute c reg = spec_on c reg (reg c.h_service)

  abbrev pub serve : List (Request D P) → Manager D P → List (XfsResponse P)
  serve [] m = []
  serve (register h d ∷ rs) m = serve rs (register_service h d m)
  serve (command logged c ∷ rs) m = let (r, m') = execute service logged c m in r ∷ serve rs m'

  abbrev pub spec_serve : List (Request D P) → Registry D → List (XfsResponse P)
  spec_serve [] reg = []
  spec_serve (register h d ∷ rs) reg = spec_serve rs (write h d reg)
  spec_serve (command logged c ∷ rs) reg =
      let (r, reg') = spec_execute c reg in r ∷ spec_serve rs reg'

  persist-services :
      (logged : Bool) (c : XfsCommand P) (r : XfsResponse P) (m : Manager D P)
      → (persist_command_log service logged c r m).services ≡ m.services
  persist-services true c r m = refl
  persist-services false c r m = refl

  set_service-Refines :
      (h : String) (d : D) (ms : List (String × D))
      → registry_of (set_service h d ms) ≡ write h d (registry_of ms)
  set_service-Refines h d ms = fun_ext (λ k. get_service-set_service k h d ms)

  respond-spec_answer :
      (c : XfsCommand P) (answer : Result String P)
      → respond service c answer ≡ spec_answer c answer
  respond-spec_answer c (ok payload) = refl
  respond-spec_answer c (err message) = refl

  -- The answer and the registry after a command are those of the specification.
  execute_on-spec_on :
      (logged : Bool) (c : XfsCommand P) (m : Manager D P) (o : Option D)
      → (execute_on service logged c m o).0 ≡ (spec_on c (registry_of m.services) o).0
        × (registry_of (execute_on service logged c m o).1.services
            ≡ (spec_on c (registry_of m.services) o).1)
  execute_on-spec_on logged c m none = (
    refl,
    ap registry_of (
        persist-services logged c
          (xfs_error c err_service_not_found (append_text "Unknown hService: " c.h_service)) m),
  )
  execute_on-spec_on logged c m (some d) =
      let (answer, d') = service.execute_command c.command_code c.payload d in
      (
        respond-spec_answer c answer,
        ap registry_of (
              persist-services logged c (respond service c answer)
                (record { services = set_service c.h_service d' m.services; log = m.log }))
            ∙ set_service-Refines c.h_service d' m.services,
      )

  serve-refines :
      (rs : List (Request D P)) (m : Manager D P)
      → serve rs m ≡ spec_serve rs (registry_of m.services)
  unfolding execute
  serve-refines [] m = refl
  serve-refines (register h d ∷ rs) m =
      serve-refines rs (register_service h d m)
      ∙ ap (spec_serve rs) (set_service-Refines h d m.services)
  serve-refines (command logged c ∷ rs) m =
      let o = get_service c.h_service m.services in
      let (same, after) = execute_on-spec_on logged c m o in
      λ i.
        same i ∷ (serve-refines rs (execute_on service logged c m o).1 ∙ ap (spec_serve rs) after) i

  -- From an empty manager, any sequence of registrations and commands gets the answers of the
  -- specification, in which a name stands for the device that was last registered under it, a command
  -- changes only the device that it names, an unknown name is answered with ERR_SERVICE_NOT_FOUND, what a
  -- device returns is the payload of a success, and the message that it throws is the detail of
  -- ERR_INTERNAL_ERROR. Whether the rows of the log are written changes no answer.
  pub serve-Refines : (rs : List (Request D P)) → serve rs new_manager ≡ spec_serve rs (λ h. none)
  unfolding get_service
  serve-Refines rs = serve-refines rs new_manager
