-- ===== src/Gateway/Pipe/Order.antt =====
-- In which order texts come through the weather FIFO.
use smart_home_weather_monit.Base.{
  ◌≤◌, ◌≡◌, ◌≢◌, refl, ap, sym, ◌∙◌, true, false, some, List, [], ◌∷◌, ◌++◌, arith, append_assoc,
  append-nil, length, take, take_all, drop, drop_all,
}
use smart_home_weather_monit.Text.{Bytes, c_text}
use smart_home_weather_monit.Gateway.{Gateway}
use smart_home_weather_monit.Gateway.Fifo.{read_weather_from_fifo, read_weather, until_newline}
use smart_home_weather_monit.Gateway.Listeners.{got, listener_loop}
use smart_home_weather_monit.Gateway.Pipe.{
  Pipe, IsWritten, IsWholeStep, IsUncut, Step, writes_text, writes_newline, reports, finds_nothing,
  listens, Reach, start, later, reads_all, after_report,
}
use smart_home_weather_monit.Gateway.Pipe.Sublists.{
  Sub, Sub-snoc, Sub-prefix, visible, visible-append, newest, newest-snoc,
}
use smart_home_weather_monit.Gateway.Pipe.Tokens.{
  Token, line, newline, flat, lines, Alternates, flat-append, lines-append, Alternates-line,
  Alternates-newline, first, first_lem, first-Sub,
}

pub read_all :
    (g : Gateway) (b : Bytes)
    → b ≢ []
    → length b ≤ 1023
    → (read_weather_from_fifo (reads_all b) g).0
      ≡ record g { last_weather = until_newline (c_text b) }
unfolding read_weather_from_fifo read_weather
read_all g [] ne l = absurd (ne refl)
read_all g (x ∷ b) ne l =
    ap (λ r. record g { last_weather = until_newline (c_text (take 1023 r)) })
      (take_all 1023 (x ∷ b) l)
    ∙ ap (λ r. record g { last_weather = until_newline (c_text r) }) (take_all 1023 (x ∷ b) l)

listener-same :
    (g next : Gateway) (b : Bytes) → listener_loop g (got b true ∷ []) ≡ some next → next ≡ g
unfolding listener_loop
listener-same g next b e = ground (arith, e)

-- What holds in every state: the tokens that wait, and the order of the texts.
record Ordered (s : Pipe) (ts : List Token) : Type 0 where
  content : s.bytes ≡ flat ts
  alternates : Alternates ts s.midway
  order : Sub (visible s.kept ++ lines ts) s.written
  last : s.gateway.last_weather ≡ newest s.kept

abbrev Inv : Pipe → Type 0
Inv s = (ts : List Token) × Ordered s ts

write_text-Ordered :
    (s : Pipe) (ts : List Token) (t : Bytes)
    → s.midway ≡ false
    → IsWritten t
    → Ordered s ts
    → Ordered
        (record s { bytes = s.bytes ++ t; midway = true; written = s.written ++ t ∷ [] })
        (ts ++ line t ∷ [])
write_text-Ordered s ts t off w v = record {
  content =
      ap (λ b. b ++ t) v.content
      ∙ ap (λ r. flat ts ++ r) (sym (append-nil t))
      ∙ sym (flat-append ts (line t ∷ []));
  alternates = Alternates-line ts t (rw off at v.alternates) w;
  order = rw (lines-append ts (line t ∷ [])) (
      rw (sym (append_assoc (visible s.kept) (lines ts) (t ∷ [])))
        (Sub-snoc (visible s.kept ++ lines ts) s.written t v.order));
  last = v.last;
}

write_newline-Ordered :
    (s : Pipe) (ts : List Token)
    → s.midway ≡ true
    → Ordered s ts
    → Ordered (record s { bytes = s.bytes ++ b'\n' ∷ []; midway = false }) (ts ++ newline ∷ [])
write_newline-Ordered s ts on v = record {
  content = ap (λ b. b ++ b'\n' ∷ []) v.content ∙ sym (flat-append ts (newline ∷ []));
  alternates = Alternates-newline ts (rw on at v.alternates);
  order = rw (lines-append ts (newline ∷ [])) (rw (append-nil (lines ts)) v.order);
  last = v.last;
}

report-Ordered :
    (s : Pipe) (ts : List Token)
    → s.bytes ≢ []
    → length s.bytes ≤ 1023
    → Ordered s ts
    → Ordered (after_report s) []
report-Ordered s ts ne l v =
    let k : (read_weather_from_fifo (reads_all s.bytes) s.gateway).0.last_weather ≡ first ts =
      ap (λ g. g.last_weather) (read_all s.gateway s.bytes ne l)
      ∙ ap (λ b. until_newline (c_text b)) v.content
      ∙ first_lem ts s.midway v.alternates in
    record {
      content = drop_all 1023 s.bytes l;
      alternates = tt;
      order = rw k (
          rw (append-nil (visible (s.kept ++ first ts ∷ []))) (
            rw (visible-append s.kept (first ts ∷ []))
              (first-Sub ts s.midway (visible s.kept) s.written v.alternates v.order)));
      last = sym (newest-snoc s.kept (after_report s).gateway.last_weather);
    }

nothing-same : (g : Gateway) → (read_weather_from_fifo (reads_all []) g).0 ≡ g
unfolding read_weather_from_fifo read_weather
nothing-same g = refl

same_gateway :
    (s : Pipe) (ts : List Token) (g : Gateway)
    → g ≡ s.gateway
    → Ordered s ts
    → Ordered (record s { gateway = g }) ts
same_gateway s ts g e v = record {
  content = v.content;
  alternates = v.alternates;
  order = v.order;
  last = ap (λ g. g.last_weather) e ∙ v.last;
}

listened-Ordered :
    (s : Pipe) (ts : List Token) (g : Gateway)
    → length s.bytes ≤ 1023
    → g ≡ s.gateway
    → Ordered s ts
    → Ordered (record s { gateway = g; bytes = drop 1023 s.bytes }) []
listened-Ordered s ts g l e v = record {
  content = drop_all 1023 s.bytes l;
  alternates = tt;
  order =
      rw (append-nil (visible s.kept)) (Sub-prefix (visible s.kept) (lines ts) s.written v.order);
  last = ap (λ g. g.last_weather) e ∙ v.last;
}

Step-Inv : {s t : Pipe} (step : Step s t) → IsWholeStep step → Inv s → Inv t
Step-Inv {s} (writes_text t off w) h (ts, v) =
    (ts ++ line t ∷ [], write_text-Ordered s ts t off w v)
Step-Inv {s} (writes_newline on) h (ts, v) = (ts ++ newline ∷ [], write_newline-Ordered s ts on v)
Step-Inv {s} (reports ne) h (ts, v) = ([], report-Ordered s ts ne h v)
Step-Inv {s} (finds_nothing e) h (ts, v) = (ts, same_gateway s ts _ (nothing-same s.gateway) v)
Step-Inv {s} (listens next ne e) h (ts, v) =
    ([], listened-Ordered s ts next h (listener-same s.gateway next (take 1023 s.bytes) e) v)

Reach-Ordered : {s : Pipe} (r : Reach s) → IsUncut r → Inv s
Reach-Ordered (start g e) h = ([], record { content = refl; alternates = tt; order = tt; last = e })
Reach-Ordered (later r step) h = Step-Inv step h.1 (Reach-Ordered r h.0)

-- In every interleaving of client C's writes into the weather FIFO with the reads of the gateway and of its
-- listener in which no read finds more than 1023 bytes, each text that the gateway keeps is empty, or one
-- that client C has written, whole; the latter are kept in the order in which they were written and at most
-- once each; and the text that stands for the weather is the last one kept.
pub Reach-Sub :
    {s : Pipe} (r : Reach s)
    → IsUncut r
    → Sub (visible s.kept) s.written × (s.gateway.last_weather ≡ newest s.kept)
Reach-Sub {s} r h =
    let (ts, v) = Reach-Ordered r h in
    (Sub-prefix (visible s.kept) (lines ts) s.written v.order, v.last)
