-- ===== src/Format.antt =====
-- Python's str.format(**variables), as worker/processor/job_processor.py renders a template with it:
-- text, `{{`, `}}` and `{name}`. A template with any other replacement field (an attribute, an
-- index, a conversion, a format spec, a nested or a numbered field) is left to the library.
pub mod Raises
use Prim.Native.Char.{Char, code}
use notification_service_kaf.Prelude.{
  ℕ, String, cat, Option, none, some, inl, inr, Bool, true, false, ◌&&◌, ◌||◌, leb, ◌==◌, str_eq,
  if◌then◌else◌,
}
use notification_service_kaf.Schemas.{Json, Members, end, member, text, is_blank}
use notification_service_kaf.Runtime.{Exc, value_error, key_error, index_error, Libs}
use notification_service_kaf.Runtime.Monad.{Result, ok, raised}

abbrev pub open_brace : ℕ
open_brace = b'{'

abbrev pub close_brace : ℕ
close_brace = b'}'

-- Where the scanner stands: in text, after a `{`, after a `}`, or in a field with this much of its
-- name.
pub data Mode : Type 0 where
  literal opened closed : Mode
  field : String → Mode

abbrev pub next_mode : Mode → Char → Mode
next_mode literal c =
    if code c == open_brace then opened else if code c == close_brace then closed else literal
next_mode opened c =
    if code c == open_brace
    then literal
    else if code c == close_brace
    then literal
    else field (String.◌∷◌ c String.[])
next_mode closed c = literal
next_mode (field n) c =
    if code c == close_brace then literal else field (cat n (String.◌∷◌ c String.[]))

-- What one character gives to the output.
pub data Piece : Type 0 where
  silent : Piece
  char : Char → Piece
  value_of : String → Piece
  bad : Exc → Piece

abbrev pub piece : Mode → Char → Piece
piece literal c =
    if code c == open_brace then silent else if code c == close_brace then silent else char c
piece opened c =
    if code c == open_brace
    then char c
    else if code c == close_brace
    then bad (index_error "Replacement index 0 out of range for positional args tuple")
    else silent
piece closed c =
    if code c == close_brace
    then char c
    else bad (value_error "Single '}' encountered in format string")
piece (field n) c = if code c == close_brace then value_of n else silent

-- A text that ends in this mode.
abbrev pub at_end : Mode → Result String
at_end literal = ok ""
at_end opened = raised (value_error "Single '{' encountered in format string")
at_end closed = raised (value_error "Single '}' encountered in format string")
at_end (field n) = raised (value_error "expected '}' before end of string")

abbrev pub lookup : String → Members → Option Json
lookup k end = none
lookup k (member j v ms) = if str_eq j k then some v else lookup k ms

-- format(value, ""), which is str(value).
abbrev pub json_str : Libs → Json → String
json_str l (text s) = s
json_str l v = l.json_text v

abbrev pub put : String → Result String → Result String
put s (ok t) = ok (cat s t)
put s (raised e) = raised e

abbrev pub put_char : Char → Result String → Result String
put_char c (ok t) = ok (String.◌∷◌ c t)
put_char c (raised e) = raised e

abbrev pub put_value : Libs → String → Option Json → Result String → Result String
put_value l n none rest = raised (key_error (l.repr n))
put_value l n (some v) rest = put (json_str l v) rest

abbrev pub put_piece : Libs → Members → Piece → Result String → Result String
put_piece l vars silent rest = rest
put_piece l vars (char c) rest = put_char c rest
put_piece l vars (value_of n) rest = put_value l n (lookup n vars) rest
put_piece l vars (bad e) rest = raised e

unfoldable pub scan : Libs → Members → Mode → String → Result String
scan l vars m String.[] = at_end m
scan l vars m (String.◌∷◌ c s) = put_piece l vars (piece m c) (scan l vars (next_mode m c) s)

-- A character that makes a replacement field more than a name.
abbrev pub is_special : Mode → ℕ → Bool
is_special literal c = false
is_special closed c = false
is_special opened c = c == b'.' || c == b'[' || c == b'!' || c == b':' || (leb b'0' c && leb c b'9')
is_special (field n) c = c == b'.' || c == b'[' || c == b'!' || c == b':' || c == open_brace

unfoldable pub has_special : Mode → String → Bool
has_special m String.[] = false
has_special m (String.◌∷◌ c s) = is_special m (code c) || has_special (next_mode m c) s

unfoldable pub format : Libs → String → Members → Result String
format l s vars =
    if has_special literal s
    then elim (l.format_special s vars) [ inl t ↦ ok t | inr e ↦ raised e ]
    else scan l vars literal s
