-- ===== src/Format/Raises.antt =====
-- str.format raises no cancellation, whatever the template is.
use notification_service_kaf.Prelude.{◌≡◌, refl, String, true, arith, inl, inr, ◌⊎◌, Bool-cases}
use notification_service_kaf.Schemas.{Members}
use notification_service_kaf.Runtime.{Libs, Exc, is_exception}
use notification_service_kaf.Runtime.Monad.{IsUncancelled, Result, ok, raised}
use notification_service_kaf.Format.{
  format, scan, has_special, Mode, literal, next_mode, Piece, silent, char, value_of, bad, piece,
  put_piece,
}
use Prim.Native.Char.{Char}

-- The exceptions of str.format are no cancellations.
abbrev pub FormatsCalmly : Libs → Type 0
FormatsCalmly l =
    (s : String) (vars : Members) (e : Exc)
    → l.format_special s vars ≡ inr e
    → is_exception e ≡ true

special-IsUncancelled :
    (r : String ⊎ Exc)
    → ((e : Exc) → r ≡ inr e → is_exception e ≡ true)
    → IsUncancelled (elim r [ inl t ↦ ok t | inr e ↦ raised e ])
special-IsUncancelled (inl t) h = tt
special-IsUncancelled (inr e) h = h e refl

abbrev IsHarmless : Piece → Type 0
IsHarmless silent = Unit {0}
IsHarmless (char c) = Unit {0}
IsHarmless (value_of n) = Unit {0}
IsHarmless (bad e) = is_exception e ≡ true

piece-IsHarmless : (m : Mode) (c : Char) → IsHarmless (piece m c)
piece-IsHarmless m c = ground arith

put_piece-IsUncancelled :
    (l : Libs) (vars : Members) (p : Piece) (rest : Result String)
    → IsHarmless p
    → IsUncancelled rest
    → IsUncancelled (put_piece l vars p rest)
put_piece-IsUncancelled l vars p rest h i = ground arith

scan-IsUncancelled :
    (l : Libs) (vars : Members) (m : Mode) (s : String) → IsUncancelled (scan l vars m s)
unfolding scan
scan-IsUncancelled l vars m String.[] = ground arith
scan-IsUncancelled l vars m (String.◌∷◌ c s) =
    put_piece-IsUncancelled l vars (piece m c) _ (piece-IsHarmless m c)
      (scan-IsUncancelled l vars (next_mode m c) s)

pub format-IsUncancelled :
    (l : Libs) (s : String) (vars : Members) → FormatsCalmly l → IsUncancelled (format l s vars)
unfolding format
format-IsUncancelled l s vars calm = elim (Bool-cases (has_special literal s)) [
  | inl e ↦ rw e (special-IsUncancelled (l.format_special s vars) (calm s vars))
  | inr e ↦ rw e (scan-IsUncancelled l vars literal s)
]
