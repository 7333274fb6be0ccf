-- ===== src/Text/Parts.antt =====
-- Parts of a text, such as the pieces in which a stream arrives.
use smart_home_weather_monit.Base.{
  ◌≤◌, ◌≡◌, ap, ◌∙◌, false, [], ◌∷◌, ◌++◌, arith, inl, inr, Bool-cases, append_assoc, length,
  length-append,
}
use smart_home_weather_monit.Text.{Bytes, contains}
use smart_home_weather_monit.Text.Search.{Occurs, contains_iff}
use smart_home_weather_monit.Text.Buffers.{IsText}

-- A part of another text.
abbrev pub Part : Bytes → Bytes → Type 0
Part t whole = Occurs t whole

pub Part-contains :
    (t whole n : Bytes) → Part t whole → contains whole n ≡ false → contains t n ≡ false
Part-contains t whole n (before, after, e) h = elim (Bool-cases (contains t n)) [
  | inr missed ↦ missed
  | inl found ↦
      let (b, a, f) = (contains_iff t n).0 found in
      let g =
        (contains_iff whole n).1
          (before ++ b, a ++ after, e ∙ ap (λ x. before ++ (x ++ after)) f ∙ simp append_assoc) in
      cc (g, h)
]

pub Part-piece :
    (piece rest stream whole : Bytes)
    → stream ≡ piece ++ rest
    → Part stream whole
    → Part piece whole
Part-piece piece rest stream whole e (before, after, f) =
    (before, rest ++ after, simp (f, e, append_assoc))

pub Part-rest :
    (piece rest stream whole : Bytes) → stream ≡ piece ++ rest → Part stream whole → Part rest whole
Part-rest piece rest stream whole e (before, after, f) =
    (before ++ piece, after, simp (f, e, append_assoc))

IsText-left : (s t : Bytes) → IsText (s ++ t) → IsText s
IsText-left [] t h = tt
IsText-left (c ∷ s) t h = (h.0, IsText-left s t h.1)

IsText-right : (s t : Bytes) → IsText (s ++ t) → IsText t
IsText-right [] t h = h
IsText-right (c ∷ s) t h = IsText-right s t h.1

pub Part-IsText : (t whole : Bytes) → Part t whole → IsText whole → IsText t
Part-IsText t whole (before, after, e) h =
    IsText-left t after (IsText-right before (t ++ after) (rw e at h))

pub Part-length : (t whole : Bytes) → Part t whole → length t ≤ length whole
Part-length t whole (before, after, e) =
    omega (arith, ap length e, length-append before (t ++ after), length-append t after)
