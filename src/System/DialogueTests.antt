-- ===== src/System/DialogueTests.antt =====
-- Client B asks for two cities.
use smart_home_weather_monit.Base.{
  ℕ, ◌≡◌, refl, false, inl, inr, ◌==◌, if◌then◌else◌, ltb, map, All, List, true, none, some, [],
  ◌∷◌, arith,
}
use smart_home_weather_monit.Text.{Bytes, bytes, contains, str_eq}
use smart_home_weather_monit.Text.Buffers.{IsText}
use smart_home_weather_monit.Forecast.Query.{weather, null}
use smart_home_weather_monit.Server
use smart_home_weather_monit.Server.{identify, forward, send_if, b_connected}
use smart_home_weather_monit.Server.Threads.{
  Phase, Server, update, started, registered, accepts, identifies, Reach, start, later,
}
use smart_home_weather_monit.ClientA.{Queries, Turn, Session, client_main}
use smart_home_weather_monit.ClientB
use smart_home_weather_monit.ClientB.{reply_text}
use smart_home_weather_monit.System.Session.{IsServed, session_answered}
use smart_home_weather_monit.System.Dialogue.{
  Exchange, IsAsked, round_of, turn_of, dialogue, Passes,
}

-- Client A on descriptor 4 and client B on descriptor 5.
abbrev name_a : Bytes
name_a = bytes "CLIENT_A"

abbrev pub name_b : Bytes
name_b = bytes "CLIENT_B"

abbrev pub accepted_5 : Server
accepted_5 = record started { phase = update started.phase 5 (some Phase.identifying) }

abbrev pub with_b : Server
with_b = registered accepted_5 5 name_b

abbrev accepted_4 : Server
accepted_4 = record with_b { phase = update with_b.phase 4 (some Phase.identifying) }

abbrev with_both : Server
with_both = registered accepted_4 4 name_a

name_a-received : Server.received_text name_a ≡ some name_a
unfolding Server.received_text
name_a-received = refl

pub name_b-received : Server.received_text name_b ≡ some name_b
unfolding Server.received_text
name_b-received = refl

free_4 : with_b.phase 4 ≡ none
unfolding identify contains
free_4 = refl

identifying_4 : accepted_4.phase 4 ≡ some Phase.identifying
unfolding identify contains
identifying_4 = refl

with_both-Reach : Reach with_both
with_both-Reach =
    later _
      (later []
        (later _ (later [] start (accepts 5 refl))
          (identifies 5 name_b name_b refl name_b-received))
        (accepts 4 free_4))
      (identifies 4 name_a name_a identifying_4 name_a-received)

holds_a : with_both.clients.client_a ≡ some 4
unfolding identify contains
holds_a = refl

holds_b : with_both.clients.client_b ≡ some 5
unfolding identify contains
holds_b = refl

abbrev always_sunny : Queries
always_sunny city k = weather (bytes "晴")

-- The third query succeeds.
abbrev later_sunny : Queries
later_sunny city k = if ltb k 2 then null else weather (bytes "晴")

abbrev exchanges : List Exchange
exchanges =
    record { city = bytes "北京"; queries = always_sunny; k = 0; report = bytes "晴" }
    ∷ record { city = bytes "Paris"; queries = later_sunny; k = 2; report = bytes "晴" }
    ∷ []

answer-IsText : IsText (bytes "晴")
answer-IsText = ((λ e. omega arith), ((λ e. omega arith), ((λ e. omega arith), tt)))

beijing-IsAsked :
    IsAsked (record { city = bytes "北京"; queries = always_sunny; k = 0; report = bytes "晴" })
unfolding contains str_eq
beijing-IsAsked = record {
  answered = record {
    text = omega arith;
    not_empty = λ e. cc;
    short = omega arith;
    no_notice = refl;
    in_time = omega arith;
    found = refl;
    before = λ j h. absurd (omega arith);
    answer = answer-IsText;
    answer_short = omega arith;
  };
  line = omega arith;
  stays = refl;
}

paris-IsAsked :
    IsAsked (record { city = bytes "Paris"; queries = later_sunny; k = 2; report = bytes "晴" })
unfolding contains str_eq
paris-IsAsked = record {
  answered = record {
    text = omega arith;
    not_empty = λ e. cc;
    short = omega arith;
    no_notice = refl;
    in_time = omega arith;
    found = refl;
    before = λ j h. ground arith;
    answer = answer-IsText;
    answer_short = omega arith;
  };
  line = omega arith;
  stays = refl;
}

-- Client A receives nothing in the first round of its wait, and the notice of client B in the second.
abbrev told_later : ℕ → Turn
told_later i = record {
  interrupted = false;
  message = if i == 1 then some b_connected else none;
  queries = always_sunny;
}

abbrev session : Session
session = record {
  has_socket = true;
  address_valid = true;
  connects = true;
  confirmation = Server.connected;
  waiting = told_later;
  first_query = λ city. weather (bytes "晴");
  turns = map turn_of exchanges;
}

session-IsServed : IsServed session (bytes "晴") exchanges
session-IsServed = record {
  connects = refl;
  confirmation = refl;
  told = (refl, inr (tt, (refl, inl refl)));
  found = refl;
  text = answer-IsText;
  short = omega arith;
  asked = refl;
  answered = (beijing-IsAsked, (paris-IsAsked, tt));
}

session_answered_example :
    (client_main session ≡ some (0, bytes "CLIENT_A" ∷ bytes "晴" ∷ map (λ x. x.report) exchanges))
    × (ClientB.client_main Server.connected (bytes "晴") (map round_of exchanges)
        ≡ some (
            ClientB.sent (bytes "CLIENT_B")
            ∷ ClientB.shown Server.connected
            ∷ ClientB.shown (bytes "晴")
            ∷ dialogue exchanges))
    × (forward with_both.clients 4 (bytes "晴")
        ≡ Server.sent 5 (bytes "晴") ∷ send_if with_both.clients.client_c (bytes "晴"))
    × All (Passes with_both 4 5) exchanges
session_answered_example =
    session_answered with_both 4 5 session (bytes "晴") exchanges with_both-Reach holds_a holds_b
      session-IsServed
