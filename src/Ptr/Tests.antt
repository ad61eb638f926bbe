-- ===== src/Ptr/Tests.antt =====
-- The printer's theorem at a concrete input.
use atm_xfs_simulator.Common.{String, refl, List, [], ◌∷◌}
use atm_xfs_simulator.Ptr.{Env, Fields, PtrFormName, PtrPrintFormPayload, new}
use atm_xfs_simulator.Ptr.Paper.{IsPrinted, print_forms, print_forms-IsPrinted}

abbrev json_form : PtrFormName → String → Fields → String
json_form name at fields = at

abbrev env : Env
env = record {
  id = "M1";
  iso = "2026-04-24T00:00:00.000Z";
  local = "24/4/2026";
  stringify_form = json_form;
}

abbrev balance_form : PtrPrintFormPayload
balance_form = record { form_name = PtrFormName.receipt; fields = ("balance", "100.000") ∷ [] }

abbrev forms : List (Env × PtrPrintFormPayload)
forms = (env, balance_form) ∷ (env, balance_form) ∷ []

print_forms-IsPrinted_example : IsPrinted forms [] new (print_forms forms new)
unfolding new
print_forms-IsPrinted_example = print_forms-IsPrinted forms [] new refl refl
