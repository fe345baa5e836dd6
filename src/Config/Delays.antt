-- ===== src/Config/Delays.antt =====
-- Settings.retry_delays_seconds of a text that was joined from words by commas.
use Prim.Native.Char.{Char, char, code}
use Prim.Native.String.append
use notification_service_kaf.Prelude.{
  ℕ, ◌≡◌, refl, ap, ◌∙◌, String, cat, List, [], ◌∷◌, Option, none, some, true, false, All, ◌==◌,
}
use notification_service_kaf.Text.{strip, split}
use notification_service_kaf.Schemas.{is_blank}
use notification_service_kaf.Runtime.{Libs, Settings}
use notification_service_kaf.Runtime.Monad.{Result, ok, raised}
use notification_service_kaf.Config.{
  of_parts, retry_delays_seconds, stripped_words, floats, comma, empty_delays,
}

abbrev pub HasNoComma : String → Type 0
HasNoComma String.[] = Unit {0}
HasNoComma (String.◌∷◌ c s) = (code c == comma ≡ false) × HasNoComma s

-- What lies between two commas: white space, or a text with white space around it, and its delay.
abbrev pub Piece : Type 0
Piece = String × Option ℕ

abbrev pub IsPiece : Libs → Piece → Type 0
IsPiece l (w, none) = HasNoComma w × (is_blank (strip w) ≡ true)
IsPiece l (w, some d) = HasNoComma w × (is_blank (strip w) ≡ false) × (l.float (strip w) ≡ some d)

abbrev pub comma_char : Char
comma_char = char b',' tt

abbrev pub joined : Piece → List Piece → String
joined p [] = p.0
joined p (q ∷ ps) = cat p.0 (String.◌∷◌ comma_char (joined q ps))

abbrev pub delays_of : List Piece → List ℕ
delays_of [] = []
delays_of ((w, none) ∷ ps) = delays_of ps
delays_of ((w, some d) ∷ ps) = d ∷ delays_of ps

-- A text without a delay is refused.
abbrev pub answer_of : List ℕ → Result (List ℕ)
answer_of [] = raised empty_delays
answer_of (d ∷ ds) = ok (d ∷ ds)

abbrev words : List Piece → List String
words [] = []
words (p ∷ ps) = p.0 ∷ words ps

split-none : (w : String) → HasNoComma w → split comma w ≡ w ∷ []
unfolding split
split-none String.[] h = refl
split-none (String.◌∷◌ c w) (n, h) = rw (n, split-none w h) refl

split-joined_word :
    (w s : String)
    → HasNoComma w
    → split comma (cat w (String.◌∷◌ comma_char s)) ≡ w ∷ split comma s
unfolding split
split-joined_word String.[] s h = rw (append.nil (String.◌∷◌ comma_char s)) refl
split-joined_word (String.◌∷◌ c w) s (n, h) =
    rw (append.cons c w (String.◌∷◌ comma_char s), n, split-joined_word w s h) refl

NoCommas : List Piece → Type 0
NoCommas ps = All (λ (p : Piece). HasNoComma p.0) ps

split-joined :
    (p : Piece) (ps : List Piece)
    → HasNoComma p.0
    → NoCommas ps
    → split comma (joined p ps) ≡ words (p ∷ ps)
unfolding NoCommas
split-joined p [] h hs = split-none p.0 h
split-joined p (q ∷ ps) h (n, ns) =
    split-joined_word p.0 (joined q ps) h ∙ ap (λ ws. p.0 ∷ ws) (split-joined q ps n ns)

no_comma : (l : Libs) (p : Piece) → IsPiece l p → HasNoComma p.0
no_comma l (w, none) h = h.0
no_comma l (w, some d) h = h.0

no_commas : (l : Libs) (ps : List Piece) → All (IsPiece l) ps → NoCommas ps
unfolding NoCommas
no_commas l [] h = tt
no_commas l (p ∷ ps) (h, hs) = (no_comma l p h, no_commas l ps hs)

floats-delays_of :
    (l : Libs) (ps : List Piece)
    → All (IsPiece l) ps
    → floats l (stripped_words (words ps)) ≡ some (delays_of ps)
unfolding floats stripped_words
floats-delays_of l [] h = refl
floats-delays_of l ((w, none) ∷ ps) ((n, b), hs) = rw b (floats-delays_of l ps hs)
floats-delays_of l ((w, some d) ∷ ps) ((n, b, f), hs) = rw (b, f, floats-delays_of l ps hs) refl

of_parts-delays_of :
    (l : Libs) (ps : List Piece)
    → All (IsPiece l) ps
    → of_parts l (stripped_words (words ps)) ≡ answer_of (delays_of ps)
unfolding floats stripped_words
of_parts-delays_of l [] h = refl
of_parts-delays_of l ((w, none) ∷ ps) ((n, b), hs) = rw b (of_parts-delays_of l ps hs)
of_parts-delays_of l ((w, some d) ∷ ps) ((n, b, f), hs) = rw (b, f, floats-delays_of l ps hs) refl

-- Of a text that joins pieces by commas, each of which is white space or, up to white space around
-- it, a text that float accepts, retry_delays_seconds gives the delays of these texts in their
-- order, and raises the ValueError on an empty setting if there is none.
pub retry_delays_seconds-joined :
    (l : Libs) (s : Settings) (p : Piece) (ps : List Piece)
    → All (IsPiece l) (p ∷ ps)
    → s.retry_delays_seconds_raw ≡ joined p ps
    → retry_delays_seconds l s ≡ answer_of (delays_of (p ∷ ps))
unfolding retry_delays_seconds
retry_delays_seconds-joined l s p ps h e =
    rw
      (
        e,
        split-joined p ps (no_comma l p h.0) (no_commas l ps h.1),
        of_parts-delays_of l (p ∷ ps) h,
      )
      refl
