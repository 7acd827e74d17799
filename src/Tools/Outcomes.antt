-- ===== src/Tools/Outcomes.antt =====
-- `handleCallTool`: what each answer leaves in the audit log.
use pdatahub.Audit.{AuditAppendInput, decision_text}
use pdatahub.Tools.{PluginReauthNotification}
use pdatahub.Tools.Call.{
  PluginCall, answered_nothing, threw_nothing, answered, threw, Surroundings, ToolReply, content,
  failure, plugin_failure, thrown, Outcome,
}
use pdatahub.Prelude.{
  String, [], none, some, true, false, Bool, Option, List, if◌then◌else◌, ◌≡◌, str_eq, ◌&&◌, ◌==◌,
  not, is_null_or_eq, ◌∷◌,
}

-- An answer and the entries fit. A success has one entry, which says approved and is broadcast. An error
-- of a plugin has one entry, which says error, carries the error's code and is broadcast, and the phones
-- are notified exactly if the status is 401. Any other error has one entry that says something else than
-- approved, but none where the tool is unknown; an exception has none. If the plugin has answered nothing, there are
-- two entries, of an approval and of an error, both broadcast.
unfoldable pub is_decision : String → AuditAppendInput → Bool
is_decision text e = str_eq (decision_text e.decision) text

unfoldable pub is_some : Option PluginReauthNotification → Bool
is_some none = false
is_some (some n) = true

unfoldable pub fits_entry : ToolReply → AuditAppendInput → Bool → Bool → Bool
fits_entry (content v) e seen notified = is_decision "approved" e && seen && not notified
fits_entry (failure status code) e seen notified = not (is_decision "approved" e) && not notified
fits_entry (plugin_failure status m) e seen notified =
    is_decision "error" e
    && is_null_or_eq e.error_code (some m.code)
    && seen
    && (if status == 401 then notified else not notified)
fits_entry (thrown x) e seen notified = false

unfoldable pub fits_none : ToolReply → Bool
fits_none (content v) = false
fits_none (failure status code) = str_eq code "UNKNOWN_TOOL"
fits_none (plugin_failure status m) = false
fits_none (thrown x) = true

unfoldable pub fits : Outcome → List AuditAppendInput → List AuditAppendInput → Bool
fits o [] [] = fits_none o.reply && not (is_some o.reauth)
fits o [] (f ∷ fs) = false
fits o (e ∷ []) [] = fits_entry o.reply e false (is_some o.reauth)
fits o (e ∷ []) (f ∷ []) = fits_entry o.reply e true (is_some o.reauth)
fits o (e ∷ []) (f ∷ g ∷ fs) = false
fits o (e ∷ d ∷ es) fs = false

unfoldable pub is_plugin_error : ToolReply → Bool
is_plugin_error (failure status code) = status == 500 && str_eq code "PLUGIN_ERROR"
is_plugin_error (content v) = false
is_plugin_error (plugin_failure status m) = false
is_plugin_error (thrown x) = false

unfoldable pub fits_both : Outcome → List AuditAppendInput → List AuditAppendInput → Bool
fits_both o (e ∷ d ∷ []) (f ∷ g ∷ []) =
    is_plugin_error o.reply
    && is_decision "approved" e
    && is_decision "error" d
    && not (is_some o.reauth)
fits_both o es fs = false

-- What the plugin answers to the call that was sent to it.
unfoldable pub is_nothing : Surroundings → Option PluginCall → Bool
is_nothing around none = false
is_nothing around (some sent) = elim (around.call_tool sent) [
  | answered r ↦ false
  | answered_nothing ↦ true
  | threw e ↦ false
  | threw_nothing ↦ false
]

abbrev pub fits_answer : Bool → Outcome → Bool
fits_answer true o = fits_both o o.audited o.broadcast
fits_answer false o = fits o o.audited o.broadcast

abbrev pub IsLogged : Surroundings → Outcome → Type 0
IsLogged around o = fits_answer (is_nothing around o.sent) o ≡ true
