-- ===== src/Broadcast/Tests.antt =====
-- Runs of the egress functions on small texts, and the theorems at them (src/broadcast).
use open_dilim.Prelude.{◌≤◌, ◌≡◌, refl, false, [], ◌∷◌, All, length}
use open_dilim.Prelude.Text.{Text, codes, is_empty, trim}
use open_dilim.Broadcast.Limits.{limit_for_channel, cap_for_channel}
use open_dilim.Broadcast.Limits.Cut.{CutOf, cap_for_channel-Cut}
use open_dilim.Broadcast.Split.{max_chunks, split_lines, split_reply, is_split_marker}
use open_dilim.Broadcast.Split.Content.{solid_all, unmarked, split_reply-Chunked}

abbrev hello : Text
hello = codes "chào\n --- \nđơn\n----\n\n---\nxong"

splits_hello : split_reply hello ≡ codes "chào" ∷ codes "đơn" ∷ codes "xong" ∷ []
unfolding split_reply is_split_marker trim
splits_hello = refl

cap_for_channel-Cut_example :
    (length (cap_for_channel (codes "meta") hello) ≤ limit_for_channel (codes "meta"))
    × CutOf hello (cap_for_channel (codes "meta") hello)
    × (length hello ≤ limit_for_channel (codes "meta")
        → cap_for_channel (codes "meta") hello ≡ hello)
cap_for_channel-Cut_example = cap_for_channel-Cut (codes "meta") hello

split_reply-Chunked_example :
    (length (split_reply hello) ≤ max_chunks)
    × All (λ chunk. is_empty chunk ≡ false) (split_reply hello)
    × (solid_all (split_reply hello) ≡ solid_all (unmarked (split_lines hello)))
split_reply-Chunked_example = split_reply-Chunked hello
