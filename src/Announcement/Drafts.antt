-- ===== src/Announcement/Drafts.antt =====
-- The state that the service and the poller share, and the drafts on Redis between two turns of the
-- agent (src/announcements/drafts.ts). What JSON.stringify wrote is kept as the value that JSON.parse
-- reads back. `sql_fails` and `redis_down` say which calls throw; a call that throws changes nothing.
use open_dilim.Prelude.{ℕ, ◌+◌, ◌*◌, Bool, Option, none, some, ◌++◌, ltb, if◌then◌else◌}
use open_dilim.Prelude.Text.{Text, codes, text_eq}
use open_dilim.Task.{Task, Result, ok, thrown, unavailable}
use open_dilim.Chat.Ports.{Bus}
use open_dilim.Announcement.Types.{Database, AnnouncementDraft}

pub record StoredDraft : Type 0 where
  pub text : Text
  pub author_sender_id : Text
  pub expires : ℕ

pub record World : Type 0 where
  pub db : Database
  pub drafts : Text → Option StoredDraft
  pub redis_down : Bool
  pub sql_fails : Text → Bool
  pub bus : Bus

-- A method of the store, by its name.
abbrev pub statement : {A : Type 0} → Text → (Database → Result A × Database) → Task World A
statement method f w =
    if w.sql_fails method
    then (thrown unavailable, w)
    else ((f w.db).0, record w { db = (f w.db).1 })

abbrev pub update : {A : Type 0} → Text → (Database → A × Database) → Task World A
update method f = statement method (λ db. (ok (f db).0, (f db).1))

abbrev pub query : {A : Type 0} → Text → (Database → A) → Task World A
query method f = statement method (λ db. (ok (f db), db))

abbrev pub on_bus : {A : Type 0} → Task Bus A → Task World A
on_bus m w = ((m w.bus).0, record w { bus = (m w.bus).1 })

-- What other instances do to the tables in between.
abbrev pub others_run : (Database → Database) → Task World (Unit {0})
others_run others w = (ok tt, record w { db = others w.db })

unfoldable pub draft_key : Text → Text
draft_key id = codes "dilim:announce:draft:" ++ id

-- `SET key value EX ttl`.
unfoldable pub put : AnnouncementDraft → ℕ → Task World (Unit {0})
unfolding draft_key
put draft ttl_sec w = if w.redis_down then (thrown unavailable, w) else (
  ok tt,
  record w {
    drafts = λ key.
        if text_eq key (draft_key draft.id)
        then some (record {
          text = draft.text;
          author_sender_id = draft.author_sender_id;
          expires = w.bus.clock + ttl_sec * 1000;
        })
        else w.drafts key;
  },
)

abbrev pub unexpired : Text → ℕ → Option StoredDraft → Option AnnouncementDraft
unexpired id now none = none
unexpired id now (some d) =
    if ltb now d.expires
    then some (record { id = id; text = d.text; author_sender_id = d.author_sender_id })
    else none

-- `GETDEL key`: read and taken away in one step.
unfoldable pub take_draft : Text → Task World (Option AnnouncementDraft)
unfolding draft_key
take_draft id w = if w.redis_down then (thrown unavailable, w) else (
  ok (unexpired id w.bus.clock (w.drafts (draft_key id))),
  record w { drafts = λ key. if text_eq key (draft_key id) then none else w.drafts key },
)
