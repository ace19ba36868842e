-- ===== src/Auction/Complex/Following.antt =====
-- A round of the writer, for an auction that it has: the results that tell of it.
pub mod Lists
pub mod Writes
pub mod Results
pub mod Rounds
use rzu.Prelude.{ℕ, Bool, false, ◌&&◌, ◌||◌, List, [], ◌∷◌, ltb, ◌==◌}
use rzu.Auction.Writer.{FlatMap}
use rzu.Auction.Simple.Data.{SimpleInfo, d_deleted}
use rzu.Auction.Complex.Data.{ComplexData}
use rzu.Auction.Complex.Writer.{DiffWriter, key, add_auction_info, is_present}

-- The results of a search, one after another.
abbrev pub add_infos : FlatMap ComplexData key → List SimpleInfo → DiffWriter → DiffWriter
add_infos m [] w = w
add_infos m (info ∷ rest) w = add_infos m rest (add_auction_info m info w)

-- Whether a result is taken, and says of this uid that it is there, or anything.
abbrev pub finds : ℕ → ℕ → SimpleInfo → Bool
finds count k info = ltb info.category count && (info.uid == k && is_present info.diff_type)

abbrev pub tells : ℕ → ℕ → SimpleInfo → Bool
tells count k info =
    ltb info.category count
    && (info.uid == k && (is_present info.diff_type || info.diff_type == d_deleted))

abbrev pub any_finds : ℕ → ℕ → List SimpleInfo → Bool
any_finds count k [] = false
any_finds count k (info ∷ rest) = finds count k info || any_finds count k rest

abbrev pub any_tells : ℕ → ℕ → List SimpleInfo → Bool
any_tells count k [] = false
any_tells count k (info ∷ rest) = tells count k info || any_tells count k rest
