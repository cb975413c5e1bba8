-- ===== src/Mavlink/Protocol/Lookup.antt =====
-- A search in a table whose ids are unique finds each of its entries.
use openhd_glide.Base.{ℕ, ◌≡◌, true, false, List, [], ◌∷◌, ◌++◌, some, ◌==◌, arith}
use openhd_glide.Base.Int.{pos}
use openhd_glide.Mavlink.Protocol.{IdEntry, find_name, is_new, ids_are_unique}

is_new-entry :
    (before after : List IdEntry) (e : IdEntry) (id : ℕ)
    → is_new id (before ++ e ∷ after) ≡ true
    → (id == e.id) ≡ false
unfolding is_new
is_new-entry [] after e id h = ground (arith, h)
is_new-entry (b ∷ before) after e id h =
    let later : is_new id (before ++ e ∷ after) ≡ true = ground (arith, h) in
    is_new-entry before after e id later

-- With unique ids, the entry at any place of a table is the one that the search for its id finds.
pub find_name-entry :
    (before after : List IdEntry) (e : IdEntry)
    → ids_are_unique (before ++ e ∷ after) ≡ true
    → find_name (before ++ e ∷ after) (pos e.id) ≡ some e.name
unfolding find_name ids_are_unique
find_name-entry [] after e h = ground arith
find_name-entry (b ∷ before) after e h =
    let other : (b.id == e.id) ≡ false = is_new-entry before after e b.id (ground (arith, h)) in
    let rest : ids_are_unique (before ++ e ∷ after) ≡ true = ground (arith, h) in
    rw other (find_name-entry before after e rest)
