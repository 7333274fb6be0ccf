-- ===== src/ClientB/Dialogue.antt =====
-- The dialogue of client B: what it sends, for which input.
use smart_home_weather_monit.Base.{
  ap, Option, ◌≡◌, ◌≢◌, ◌⊎◌, ◌++◌, ◌==◌, ==_iff, inl, inr, ◌<◌, refl, none, some, List, [], ◌∷◌,
  arith, All, length, Option-cases, Bool-cases,
}
use smart_home_weather_monit.Text.{Bytes, bytes, str_eq, c_text}
use smart_home_weather_monit.Text.Search.{str_eq_iff}
use smart_home_weather_monit.Text.Buffers.{text_of-received}
use smart_home_weather_monit.ClientB.{
  Round, Event, sent, shown, first_line, reply_text, talk, client_main,
}

-- The text is the line up to its first newline or NUL.
abbrev IsStop : Bytes → Type 0
IsStop [] = Unit
IsStop (c ∷ cs) = (c ≡ b'\n') ⊎ (c ≡ 0)

abbrev pub IsFirstLine : Bytes → Bytes → Type 0
IsFirstLine line text =
    (rest : Bytes) × (line ≡ text ++ rest) × All (λ c. (c ≢ b'\n') × (c ≢ 0)) text × IsStop rest

abbrev pub sent_lines : List Event → List Bytes
sent_lines [] = []
sent_lines (sent t ∷ es) = t ∷ sent_lines es
sent_lines (shown t ∷ es) = sent_lines es

abbrev pub shown_texts : List Event → List Bytes
shown_texts [] = []
shown_texts (sent t ∷ es) = shown_texts es
shown_texts (shown t ∷ es) = t ∷ shown_texts es

-- What is shown of a reply: its text, or that the time is over.
abbrev pub shown_reply : Option Bytes → Bytes
shown_reply none = bytes "等待响应超时"
shown_reply (some msg) = c_text msg

-- What is to be sent and shown in these rounds: each line of the input, up to its end or to "quit", and
-- what comes back for it.
pub data Dialogue : List Round → List Bytes → List Bytes → Type 0 where
  waits : Dialogue [] [] []
  ends : (r : Round) (rs : List Round) → r.line ≡ none → Dialogue (r ∷ rs) [] []
  quits :
      (r : Round) (rs : List Round) (line : Bytes)
      → r.line ≡ some line
      → IsFirstLine line (bytes "quit")
      → Dialogue (r ∷ rs) [] []
  asks :
      (r : Round) (rs : List Round) (line text : Bytes) (lines texts : List Bytes)
      → r.line ≡ some line
      → IsFirstLine line text
      → text ≢ bytes "quit"
      → Dialogue rs lines texts
      → Dialogue (r ∷ rs) (text ∷ lines) (shown_reply r.reply ∷ texts)

first_line-IsFirstLine : (line : Bytes) → IsFirstLine line (first_line line)
unfolding first_line
first_line-IsFirstLine [] = ([], refl, tt, tt)
first_line-IsFirstLine (c ∷ cs) = elim (Bool-cases (c == b'\n')) [
  | inl e ↦ rw (e, first_line) (c ∷ cs, refl, tt, inl ((==_iff c b'\n').0 e))
  | inr n ↦ elim (Bool-cases (c == 0)) [
    | inl e ↦ rw (n, first_line) (rw (e, first_line) (c ∷ cs, refl, tt, inr ((==_iff c 0).0 e)))
    | inr m ↦
        let (rest, f, h, stop) = first_line-IsFirstLine cs in
        rw (m, first_line)
          (rw (n, first_line)
            (rest, ap (◌∷◌ c) f, ((λ e. ground (arith, e, n), λ e. ground (arith, e, m)), h), stop))
  ]
]

-- The reply leaves room for a NUL.
abbrev pub Fits : Round → Type 0
Fits r = (msg : Bytes) → r.reply ≡ some msg → length msg < 1024

reply_text-Fits : (r : Round) → Fits r → reply_text r.reply ≡ some (shown_reply r.reply)
unfolding reply_text
reply_text-Fits r h = elim (Option-cases r.reply) [
  | inl e ↦ ground arith
  | inr (msg, e) ↦ ground (arith, text_of-received 1024 msg (h msg e))
]

-- A dialogue that is defined, and sends and shows these texts.
abbrev pub Says : List Bytes → List Bytes → Option (List Event) → Type 0
Says lines texts r =
    (es : List Event) × (r ≡ some es) × (sent_lines es ≡ lines) × (shown_texts es ≡ texts)

talk-Says :
    (rounds : List Round)
    → All Fits rounds
    → (lines : List Bytes) × (texts : List Bytes) × Dialogue rounds lines texts
      × Says lines texts (talk rounds)
unfolding talk
talk-Says [] h = ([], [], waits, ([], refl, refl, refl))
talk-Says (r ∷ rs) h = elim (Option-cases r.line) [
  | inl e ↦ ([], [], ends r rs e, ([], ground arith, refl, refl))
  | inr (line, e) ↦
      let shape = first_line-IsFirstLine line in
      elim (Bool-cases (str_eq (first_line line) (bytes "quit"))) [
        | inl quit ↦
            let same = (str_eq_iff (first_line line) (bytes "quit")).0 quit in
            ([], [], quits r rs line e (rw same at shape), ([], ground arith, refl, refl))
        | inr goes_on ↦
            let other : first_line line ≢ bytes "quit" =
              λ q. ground (arith, (str_eq_iff (first_line line) (bytes "quit")).1 q, goes_on) in
            let f = reply_text-Fits r h.0 in
            let (lines, texts, d, (es, g, s, n)) = talk-Says rs h.1 in
            (
              first_line line ∷ lines,
              shown_reply r.reply ∷ texts,
              asks r rs line (first_line line) lines texts e shape other d,
              (
                sent (first_line line) ∷ shown (shown_reply r.reply) ∷ es,
                ground (arith, e, goes_on, f, g),
                ap (◌∷◌ (first_line line)) s,
                ap (◌∷◌ (shown_reply r.reply)) n,
              ),
            )
      ]
]

-- If the confirmation, the first report and the replies leave room for a NUL, then main of client B is
-- defined: it sends its name and then every line of its input, up to the line's first newline or NUL,
-- once and in order, until the input ends or the line is "quit"; and it shows the confirmation, the first
-- report, and for each line the reply to it, or that none came in time.
pub client_main-Says :
    (confirmation report : Bytes) (rounds : List Round)
    → length confirmation < 1024
    → length report < 1024
    → All Fits rounds
    → (lines : List Bytes) × (texts : List Bytes) × Dialogue rounds lines texts
      × Says
          (bytes "CLIENT_B" ∷ lines)
          (c_text confirmation ∷ c_text report ∷ texts)
          (client_main confirmation report rounds)
unfolding client_main
client_main-Says confirmation report rounds a b h =
    let (lines, texts, d, (es, e, s, n)) = talk-Says rounds h in
    (
      lines,
      texts,
      d,
      (
        sent (bytes "CLIENT_B") ∷ shown (c_text confirmation) ∷ shown (c_text report) ∷ es,
        ground (arith, text_of-received 1024 confirmation a, text_of-received 1024 report b, e),
        ap (◌∷◌ (bytes "CLIENT_B")) s,
        ap (λ ts. c_text confirmation ∷ c_text report ∷ ts) n,
      ),
    )
