-- ===== src/Broadcast/Limits.antt =====
-- The length limit of a text per channel (src/broadcast/limits.ts).
pub mod Cut
use open_dilim.Prelude.{
  ℕ, ◌-◌, ◌+◌, ◌≤◌, ◌≡◌, refl, Bool, List, [], ◌∷◌, ◌++◌, leb, if◌then◌else◌, length, take,
}
use open_dilim.Prelude.Text.{Text, codes, text_eq, trim_end}

abbrev pub default_max_chars : ℕ
default_max_chars = 4500

abbrev pub truncation_suffix : Text
truncation_suffix = codes "… (nội dung đã bị cắt bớt)"

-- The names that every JavaScript object answers to, such as `constructor`, are not told apart from
-- other names.
unfoldable pub limit_for_channel : Text → ℕ
limit_for_channel channel =
    if text_eq channel (codes "zalo")
    then 4500
    else if text_eq channel (codes "meta")
    then 2000
    else default_max_chars

unfoldable pub cap_for_channel : Text → Text → Text
unfolding limit_for_channel
cap_for_channel channel text =
    let most = limit_for_channel channel in
    if leb (length text) most
    then text
    else trim_end (take (most - length truncation_suffix) text) ++ truncation_suffix
