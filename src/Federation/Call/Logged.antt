-- ===== src/Federation/Call/Logged.antt =====
-- `handleFederationCall`: the entries of the audit log for every answer.
use pdatahub.Audit.{AuditAppendInput, decision_text}
use pdatahub.Delegations.{GrantedTable}
use pdatahub.Delegations.Canonical.{Fields}
use pdatahub.Federation.Call.{Body, CallBody, Response, success, failure, thrown, Step, go, reject}
use pdatahub.Federation.Call.Run.{is_nothing, Surroundings, Outcome}
use pdatahub.Prelude.{
  ◌≡◌, not, [], none, true, false, Bool, List, String, str_eq, ◌∷◌, some, Option,
}

unfoldable pub is_approved : AuditAppendInput → Bool
is_approved e = str_eq (decision_text e.decision) "approved"

-- A success has one entry, which says approved; a failure has one entry, which says something else, or none
-- if its code is exempt; an exception has none.
unfoldable pub fits : Option String → Response → List AuditAppendInput → Bool
unfolding is_approved
fits exempt (success v) [] = false
fits exempt (success v) (e ∷ []) = is_approved e
fits exempt (success v) (e ∷ f ∷ es) = false
fits none (failure status code) [] = false
fits (some c) (failure status code) [] = str_eq code c
fits exempt (failure status code) (e ∷ []) = not (is_approved e)
fits exempt (failure status code) (e ∷ f ∷ es) = false
fits exempt (thrown m) [] = true
fits exempt (thrown m) (e ∷ es) = false

abbrev pub exempt_body : Body → Option String
exempt_body (Body.unreadable e) = some "INVALID_BODY"
exempt_body (Body.body raw json) = none

-- The code of the failure that has no entry: of a hub without federation, or of a body that cannot be read.
abbrev pub exempt_of : Option GrantedTable → Body → Option String
exempt_of none b = some "FEDERATION_NOT_INITIALIZED"
exempt_of (some table) b = exempt_body b

-- The plugin answers with an object, or throws.
abbrev pub AnswersWithSomething : Surroundings → Type 0
AnswersWithSomething around =
    (c : CallBody) (arguments : Fields) (token : Option String)
    → is_nothing (around.call_tool c arguments token) ≡ false

module _ (exempt : Option String) where
  step_fits : {A : Type 0} → Step A → Bool
  step_fits (go a) = true
  step_fits (reject r) = fits exempt r.response r.audited

  outcome_fits : Outcome → Bool
  outcome_fits o = fits exempt o.response o.audited
