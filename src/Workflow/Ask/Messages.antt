-- ===== src/Workflow/Ask/Messages.antt =====
-- The ids of the asks (askMsgId of src/workflows/engine.ts).
use open_dilim.Prelude.{ℕ, ◌≡◌, ◌++◌}
use open_dilim.Prelude.Text.{Text, codes}
use open_dilim.Prelude.Decimal.{show, show_injective, show-Avoids, last_mark}
use open_dilim.Workflow.Ask.{ask_msg_id}

drop_prefix : (s t : Text) → codes "wf:" ++ s ≡ codes "wf:" ++ t → s ≡ t
drop_prefix s t e = cc

-- Two asks have the same message id only if they are the same ask of the same request, whatever
-- characters the ids of the requests hold.
pub ask_msg_id_injective :
    (id id' : Text) (n n' : ℕ) → ask_msg_id id n ≡ ask_msg_id id' n' → (id ≡ id') × (n ≡ n')
unfolding ask_msg_id
ask_msg_id_injective id id' n n' e =
    let (same_id, same_digits) =
      last_mark b':' id id' (show n) (show n') (show-Avoids n) (show-Avoids n')
        (drop_prefix _ _ (e)) in
    (same_id, show_injective n n' same_digits)
