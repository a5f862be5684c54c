-- ===== src/Mcp/Tests.antt =====
-- Start requests at concrete inputs; the numbers of the sample are integers.
use interactive_process_mcp.Prelude.{
  ◌≡◌, refl, pos, false, none, some, [], ◌∷◌, Text, bytes, text_eq,
}
use interactive_process_mcp.Prelude.Assoc.{get}
use interactive_process_mcp.Sessions.{Config}
use interactive_process_mcp.Mcp.{
  Args, text_arg, float_arg, integer_arg, array_arg, element, no_elements, config_of, starts_or,
  starts, refused, bad_rows, start_request, validate_start_params, mode_of, rows_of, cols_of,
  get_int, get_float64, get_string, get_string_slice, as_text_or, as_float_or, as_texts, texts,
}
use interactive_process_mcp.Mcp.Logging.{
  append_safe_args, Returned, with_logging, with_logging_private, text_attr, session_attr,
  reader_attr,
}
use interactive_process_mcp.Mcp.Samples.{integers}
use interactive_process_mcp.Mcp.Start.{IsStartable, start_request_lem}

abbrev request : Args integers
request =
    (bytes "command", text_arg (bytes "sh"))
    ∷ (
      bytes "args",
      array_arg (element (text_arg (bytes "-c")) (element (integer_arg (pos 3)) no_elements)),
    )
    ∷ []

abbrev tall_request : Args integers
tall_request = (bytes "rows", float_arg (pos 1001)) ∷ request

rows_test : start_request integers tall_request ≡ refused (bad_rows (pos 1001))
unfolding start_request starts_or validate_start_params mode_of rows_of cols_of get_int get_float64
    get_string as_text_or as_float_or get
rows_test = refl

slice_test : get_string_slice integers request (bytes "args") ≡ bytes "-c" ∷ []
unfolding get_string_slice as_texts texts get
slice_test = refl

start_request_lem_example :
    ((cfg : Config)
      → start_request integers request ≡ starts cfg
      → (cfg ≡ config_of integers request) × IsStartable cfg)
    × (IsStartable (config_of integers request)
        → start_request integers request ≡ starts (config_of integers request))
start_request_lem_example = start_request_lem integers request

abbrev sign_in : Args integers
sign_in =
    (bytes "session_id", text_arg (bytes "s1")) ∷ (bytes "text", text_arg (bytes "secret")) ∷ []

abbrev greeting : Args integers
greeting =
    (bytes "text", text_arg (bytes "hello")) ∷ (bytes "session_id", text_arg (bytes "s1")) ∷ []

log_test : append_safe_args integers [] sign_in ≡ text_attr (bytes "session_id") (bytes "s1") ∷ []
unfolding append_safe_args session_attr reader_attr get
log_test = refl

-- A handler that succeeds, whatever it is given.
abbrev echo : Args integers → Returned Text
echo args = record { result = some (bytes "ok"); err = none }

with_logging_private_example :
    let logged = with_logging integers {R = Text} (λ r. false) (bytes "send_input") echo (pos 3) in
    ((logged sign_in).0 ≡ echo sign_in) × ((logged sign_in).1 ≡ (logged greeting).1)
unfolding get
with_logging_private_example =
    with_logging_private integers {R = Text} (λ r. false) (bytes "send_input") echo (pos 3) sign_in
      greeting refl refl refl refl
