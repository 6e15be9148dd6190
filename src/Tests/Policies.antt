-- ===== src/Tests/Policies.antt =====
-- The theorem about the operator's policy at a concrete policy, in which a stop is spelled with spaces.
use ld1_execution_gap_xair.Base.{◌≡◌, refl, Option, none, some, []}
use ld1_execution_gap_xair.Base.Text.{Text, txt, same_text, starts_with}
use ld1_execution_gap_xair.Base.Dict.{lookup, insert}
use ld1_execution_gap_xair.Value.{Value, str, arr, obj, nil, cons, Fields, end, field, field_of}
use ld1_execution_gap_xair.Predicate.Scan.{strip, lower, upper, drop_spaces, is_space}
use ld1_execution_gap_xair.Runtime.State.{XairRuntime}
use ld1_execution_gap_xair.Runtime.Admission.{action_class, mandated}
use ld1_execution_gap_xair.Runtime.Policy.{
  set_policy, read_entries, add_entry, class_of, required_of, demanded, texts_of, is_truthy,
  class_named,
}
use ld1_execution_gap_xair.Runtime.StopPolicy.{set_policy-stop}
use ld1_execution_gap_xair.Tests.Servers.{server}
use ld1_execution_gap_xair.Tests.Submissions.{halt}

abbrev text_of : Value → Text
text_of (str s) = s
text_of _ = []

abbrev document : Fields
document =
    field (txt " Halt ") (obj (field (txt "class") (str (txt " STOP ")) end))
      (field (txt "class:reset") (arr (cons (str (txt "line.state == 'IDLE'")) nil)) end)

abbrev or_old : Option XairRuntime → XairRuntime
or_old none = server.runtime
or_old (some s) = s

abbrev after : XairRuntime
after = or_old (set_policy text_of document server.runtime)

set_policy-stop_example : mandated halt after ≡ []
unfolding set_policy read_entries add_entry class_of required_of demanded texts_of is_truthy
    class_named strip lower upper drop_spaces is_space same_text starts_with lookup insert field_of
    action_class
set_policy-stop_example = set_policy-stop text_of document halt server.runtime after refl refl
