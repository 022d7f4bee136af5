-- ===== src/Proactive/Tests.antt =====
-- Runs of the proactive funnel on small inputs, and the theorems at them (src/proactive).
use open_dilim.Prelude.{◌+◌, ◌≤◌, ◌≡◌, refl, true, false, Option, none, some, [], ◌∷◌, arith, count}
use open_dilim.Prelude.Text.{Text, codes, text_eq}
use open_dilim.Chat.Ports.{served}
use open_dilim.Prelude.Sort.{sort_by}
use open_dilim.Workflow.Row.{◌>>=◌}
use open_dilim.Proactive.Pending.{
  PendingQuestion, Waiting, member_key, key_of, parse_pending_question, schedule, claim_due,
  due_members,
}
use open_dilim.Proactive.Pending.Latest.{WaitsOnce, entries, schedule-latest}
use open_dilim.Proactive.Pending.Claims.{
  Sent, gaps_of, storing, adding, removing, IsFiled, execute-IsFiled, is_of, waiting, gaps,
  takes_by_others, additions_by_others, claim_due-le,
}
use open_dilim.Proactive.Poller.{ProactiveSpec, World, pick_up}
use open_dilim.Proactive.Poller.Picking.{Picked, pick_up-Picked}

abbrev question : PendingQuestion
question = record {
  channel = codes "zalo";
  conversation_id = codes "g1";
  sender_id = codes "u1";
  sender_name = some (codes "An");
  msg_id = codes "m1";
  text = codes "còn hàng?";
  ts = 5;
}

abbrev nobody : Waiting
nobody = record { due = []; payloads = λ _. none }

abbrev silence : Sent
silence = record { before_remove = []; before_read = []; before_delete = [] }

-- The question is due at 100, and nobody else is there.
claims_question :
    (claim_due 100 (λ _. gaps_of silence) (schedule question 100 nobody)).0 ≡ question ∷ []
unfolding claim_due schedule member_key parse_pending_question text_eq sort_by
    open_dilim.Proactive.Pending.Claims.run
claims_question = refl

nobody-WaitsOnce : WaitsOnce nobody
nobody-WaitsOnce key = omega arith

schedule-latest_example :
    WaitsOnce (schedule question 100 nobody)
    × (entries (key_of question) (schedule question 100 nobody)
        ≡ record { key = key_of question; score = 100 } ∷ [])
    × ((do
      raw ← (schedule question 100 nobody).payloads (key_of question)
      parse_pending_question raw)
        ≡ some question)
schedule-latest_example = schedule-latest question 100 nobody nobody-WaitsOnce (refl, refl, refl)

-- Another instance removes the member first.
abbrev rival : Text → Sent
rival member = record silence { before_remove = removing member ∷ [] }

abbrev asked_once : Waiting
asked_once = schedule question 100 nobody

asked_once-IsFiled : IsFiled asked_once
unfolding schedule open_dilim.Proactive.Pending.Claims.execute
asked_once-IsFiled = execute-IsFiled (storing question) nobody (λ key q e. absurd cc)

claim_due-le_example :
    count (is_of (key_of question)) (claim_due 100 (gaps (key_of question) rival) asked_once).0
      + takes_by_others (key_of question) rival (due_members 100 asked_once) asked_once
      + waiting (key_of question) (claim_due 100 (gaps (key_of question) rival) asked_once).1
    ≤ additions_by_others (key_of question) rival (due_members 100 asked_once)
      + waiting (key_of question) asked_once
claim_due-le_example = claim_due-le (key_of question) rival 100 asked_once asked_once-IsFiled

-- The person asks again while the claim runs, and the new payload is stored between its HGET and its
-- HDEL: the member waits, and nothing is filed for it.
abbrev overtaken : Sent
overtaken = record silence { before_delete = storing question ∷ adding (key_of question) 200 ∷ [] }

loses_question :
    ((claim_due 100 (λ _. gaps_of overtaken) asked_once).1.payloads (key_of question) ≡ none)
    × (waiting (key_of question) (claim_due 100 (λ _. gaps_of overtaken) asked_once).1 ≡ 1)
unfolding claim_due schedule member_key text_eq sort_by open_dilim.Proactive.Pending.Claims.run
loses_question = (refl, refl)

abbrev world : World
world = record {
  waiting = nobody;
  rates = λ _. none;
  bus = record {
    clock = 100;
    outages = record {
      dedupe = λ _. served;
      rpush = λ _. served;
      ltrim = λ _. served;
      expire = λ _. served;
      broker = λ _. served;
      broadcaster = λ _. false;
    };
    seen = [];
    history = λ _. [];
    ingress = [];
    sent = [];
  };
}

abbrev spec_for : Text → Text → Option ProactiveSpec
spec_for channel room = some (record { wait_ms = 100; max_per_room_per_hour = 3 })

pick_up-Picked_example :
    Picked spec_for
      (some (λ _ _. true))
      question
      world
      (pick_up spec_for (some (λ _ _. true)) question world).1
pick_up-Picked_example = pick_up-Picked spec_for (some (λ _ _. true)) question world
