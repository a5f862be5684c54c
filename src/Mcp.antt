-- ===== src/Mcp.antt =====
-- internal/mcp/handlers.go: how a tool's arguments are read, and what a start request asks of the
-- manager. Floating point numbers are a parameter: the conversions from and to int that Go
-- makes, its comparison, the literal 0.1, and the time of so many seconds, in nanoseconds.
pub mod Composition
pub mod Defaults
pub mod FileTools
pub mod Handlers
pub mod Isolation
pub mod Logging
pub mod Queries
pub mod Reads
pub mod Samples
pub mod Runs
pub mod Start
pub mod Tools
mod Tests
use interactive_process_mcp.Prelude.{
  ℤ, pos, Text, bytes, Bool, true, false, not, ◌&&◌, ◌||◌, Option, none, some, List, [], ◌∷◌,
  if◌then◌else◌, ltb_ℤ, ◌==◌, text_eq,
}
use interactive_process_mcp.Prelude.Assoc.{Map, get}
use interactive_process_mcp.Strings.{is_empty}
use interactive_process_mcp.Api.{mode_pty, mode_pipe}
use interactive_process_mcp.Sessions.{Config}

pub record Floats : Type 1 where
  pub Float : Type 0
  pub of_int : ℤ → Float
  pub to_int : Float → ℤ
  pub less : Float → Float → Bool
  pub tenth : Float
  pub duration : Float → ℤ

-- A value of an argument; `integer` is an int or an int64, `other` a value of any other kind.
mutual
  pub data Arg (F : Type 0) : Type 0 where
    text_arg : Text → Arg F
    bool_arg : Bool → Arg F
    float_arg : F → Arg F
    integer_arg : ℤ → Arg F
    array_arg : Elements F → Arg F
    other_arg : Arg F

  pub data Elements (F : Type 0) : Type 0 where
    no_elements : Elements F
    element : Arg F → Elements F → Elements F

pub data StartError : Type 0 where
  no_command : StartError
  bad_mode : Text → StartError
  bad_rows bad_cols : ℤ → StartError

pub data StartResult : Type 0 where
  starts : Config → StartResult
  refused : StartError → StartResult

module _ (floats : Floats) where
  abbrev pub Args : Type 0
  Args = Map Text (Arg floats.Float)

  unfoldable pub as_text_or : Text → Option (Arg floats.Float) → Text
  as_text_or def (some (text_arg s)) = s
  as_text_or def arg = def

  unfoldable pub get_string : Args → Text → Text → Text
  unfolding as_text_or
  get_string args key def = as_text_or def (get key args)

  unfoldable pub as_bool_or : Bool → Option (Arg floats.Float) → Bool
  as_bool_or def (some (bool_arg b)) = b
  as_bool_or def arg = def

  unfoldable pub get_bool : Args → Text → Bool → Bool
  unfolding as_bool_or
  get_bool args key def = as_bool_or def (get key args)

  unfoldable pub as_float_or : floats.Float → Option (Arg floats.Float) → floats.Float
  as_float_or def (some (float_arg x)) = x
  as_float_or def (some (integer_arg n)) = floats.of_int n
  as_float_or def arg = def

  unfoldable pub get_float64 : Args → Text → floats.Float → floats.Float
  unfolding as_float_or
  get_float64 args key def = as_float_or def (get key args)

  -- The texts among the elements, in their order.
  unfoldable pub texts : Elements floats.Float → List Text
  texts no_elements = []
  texts (element (text_arg s) rest) = s ∷ texts rest
  texts (element arg rest) = texts rest

  unfoldable pub as_texts : Option (Arg floats.Float) → List Text
  unfolding texts
  as_texts (some (array_arg elements)) = texts elements
  as_texts arg = []

  unfoldable pub get_string_slice : Args → Text → List Text
  unfolding as_texts
  get_string_slice args key = as_texts (get key args)

  -- `int(getFloat64(args, key, def))`.
  unfoldable pub get_int : Args → Text → ℤ → ℤ
  get_int args key def = floats.to_int (get_float64 args key (floats.of_int def))

  unfoldable pub mode_of : Args → Text
  mode_of args = get_string args (bytes "mode") mode_pty

  unfoldable pub rows_of : Args → ℤ
  rows_of args = get_int args (bytes "rows") (pos 24)

  unfoldable pub cols_of : Args → ℤ
  cols_of args = get_int args (bytes "cols") (pos 80)

  -- `validateStartParams`: the error, if there is one.
  unfoldable pub validate_start_params : Args → Option StartError
  validate_start_params args =
      if not (mode_of args == mode_pty) && not (mode_of args == mode_pipe)
      then some (bad_mode (mode_of args))
      else if ltb_ℤ (rows_of args) (pos 1) || ltb_ℤ (pos 1000) (rows_of args)
      then some (bad_rows (rows_of args))
      else if ltb_ℤ (cols_of args) (pos 1) || ltb_ℤ (pos 1000) (cols_of args)
      then some (bad_cols (cols_of args))
      else none

  abbrev pub config_of : Args → Config
  config_of args = record {
    command = get_string args (bytes "command") [];
    args = get_string_slice args (bytes "args");
    mode = mode_of args;
    name = get_string args (bytes "name") [];
    rows = rows_of args;
    cols = cols_of args;
  }

  unfoldable pub starts_or : Option StartError → Config → StartResult
  starts_or none cfg = starts cfg
  starts_or (some e) cfg = refused e

  -- `handleStartProcess` up to its call of Create, whose argument `starts` carries.
  unfoldable pub start_request : Args → StartResult
  start_request args =
      if is_empty (get_string args (bytes "command") [])
      then refused no_command
      else starts_or (validate_start_params args) (config_of args)

  -- The message IDs that `handleGetMessage` asks for: the list, or else the one of `message_id`.
  unfoldable pub message_ids : Args → List Text
  message_ids args =
      let ids : List Text = get_string_slice args (bytes "message_ids") in
      let id : Text = get_string args (bytes "message_id") [] in
      if is_empty ids && not (is_empty id) then id ∷ [] else ids
