-- ===== src/Api/Templates/Replaced.antt =====
-- What a PUT makes of a row.
use notification_service_kaf.Prelude.{
  ℕ, ◌≡◌, refl, sym, ap, none, some, Option, Bool, true, false, String, eq_iff, ◌&&◌, if◌then◌else◌,
}
use notification_service_kaf.Schemas.{Template}
use notification_service_kaf.Api.Templates.{
  TemplateUpdate, apply_update, updated, or_kept, or_kept_option, same_subject, same_body,
}

-- The new text, if one was given, or else the old one.
abbrev pub given : Option String → String → String
given (some new) old = new
given none old = old

abbrev pub given_subject : Option String → Option String → Option String
given_subject (some new) old = some new
given_subject none old = old

-- The row `s` is `t` with the given fields replaced; the instant of the last change is left open.
pub record IsReplaced (u : TemplateUpdate) (t s : Template) : Type 0 where
  pub same_id : s.id ≡ t.id
  pub same_template_code : s.template_code ≡ t.template_code
  pub same_locale : s.locale ≡ t.locale
  pub same_channel : s.channel ≡ t.channel
  pub same_created_at : s.created_at ≡ t.created_at
  pub new_subject : s.subject ≡ given_subject u.subject t.subject
  pub new_body : s.body ≡ given u.body t.body

same_subject-given :
    (new old : Option String) → same_subject new old ≡ true → old ≡ given_subject new old
same_subject-given none old h = refl
same_subject-given (some a) none h = absurd (cc)
same_subject-given (some a) (some b) h = ap some (sym ((eq_iff a b).0 h))

same_body-given :
    (new : Option String) (old : String) → same_body new old ≡ true → old ≡ given new old
same_body-given none old h = refl
same_body-given (some a) old h = sym ((eq_iff a old).0 h)

replaced_option : (new old : Option String) → or_kept_option new old ≡ given_subject new old
replaced_option none old = refl
replaced_option (some a) old = refl

replaced : (new : Option String) (old : String) → or_kept new old ≡ given new old
replaced none old = refl
replaced (some a) old = refl

changed : (u : TemplateUpdate) (stamp : ℕ) (t : Template) → IsReplaced u t (updated u stamp t)
changed u stamp t = record {
  same_id = refl;
  same_template_code = refl;
  same_locale = refl;
  same_channel = refl;
  same_created_at = refl;
  new_subject = replaced_option u.subject t.subject;
  new_body = replaced u.body t.body;
}

pub apply_update-IsReplaced :
    (u : TemplateUpdate) (stamp : ℕ) (t : Template) → IsReplaced u t (apply_update u stamp t)
apply_update-IsReplaced u stamp t =
    go (same_subject u.subject t.subject) (same_body u.body t.body) refl refl
  where
    go :
        (a b : Bool)
        → same_subject u.subject t.subject ≡ a
        → same_body u.body t.body ≡ b
        → IsReplaced u t (if a && b then t else updated u stamp t)
    go true true e f = record {
      same_id = refl;
      same_template_code = refl;
      same_locale = refl;
      same_channel = refl;
      same_created_at = refl;
      new_subject = same_subject-given u.subject t.subject e;
      new_body = same_body-given u.body t.body f;
    }
    go true false e f = changed u stamp t
    go false b e f = changed u stamp t
