-- ===== src/Examples/KvRuns.antt =====
-- The theorems on src/ut_components/kv.py and src/greenline/contracts/kv.py at small tables, with texts
-- for values.
use greenline.Base.{
  ◌≡◌, refl, true, none, some, List, [], ◌∷◌, map, codes, ◌==◌, starts_with, arith, select, before,
}
use greenline.Contracts.{RecordType}
use greenline.Contracts.Families.{contract_for_families, type_of_key}
use greenline.Kv.{Kv, init, put, expiry, decoded}
use greenline.Examples.{texts, texts-IsLawful}
use greenline.Kv.Laws.{Entry, read, get-put}
use greenline.Kv.Like.{like_prefix, fold_case, like_prefix-eq-starts_with}
use greenline.Kv.Paging.{matching, read_pages, read_pages_complete}

abbrev table : Kv
table = record init {
  table =
      (codes "chat:a", record { value = codes "{1"; ttl = none })
      ∷ (codes "chat:b", record { value = codes "{2"; ttl = some 50 })
      ∷ (codes "chat:c", record { value = codes "{3"; ttl = some 200 })
      ∷ (codes "draft:a", record { value = codes "{4"; ttl = none })
      ∷ [];
}

read_pages_complete_example :
    read_pages texts 100 (codes "chat:") 1 true table 3 none
    ≡ some (map (decoded texts) (matching 100 (codes "chat:") true table))
unfolding like_prefix before select
read_pages_complete_example =
    read_pages_complete texts 100 (codes "chat:") 1 3 true table
      ((refl, (refl, (refl, tt))), ((refl, (refl, tt)), ((refl, tt), (tt, tt)))) (omega arith)
      (omega arith)

get-put_example :
    read texts 140
      (codes "chat:d")
      (codes "none")
      (put texts 100 (codes "chat:d") (codes "5") (some 30) table)
    ≡ codes "none"
unfolding expiry ◌==◌
get-put_example =
    get-put texts texts-IsLawful 100 140 (codes "chat:d") (codes "chat:d") (codes "5")
      (codes "none") (some 30) table

abbrev entries : List (Entry texts)
entries =
    record { key = codes "chat:d"; value = codes "5"; ttl = none }
    ∷ record { key = codes "chat:a"; value = codes "6"; ttl = some 9 }
    ∷ []

like_prefix-eq-starts_with_example :
    like_prefix (codes "chat:") (codes "CHAT:a")
    ≡ starts_with (map fold_case (codes "CHAT:a")) (map fold_case (codes "chat:"))
like_prefix-eq-starts_with_example =
    like_prefix-eq-starts_with (codes "chat:") (codes "CHAT:a") refl

contract_for_families_example :
    (type_of_key (codes "pending-outbox:a:m") ≡ some RecordType.pending_outbox)
    × (type_of_key (codes "unhandled_message:a:m") ≡ some RecordType.unhandled_message)
    × (type_of_key (codes "unknown_event:a:m") ≡ some RecordType.unknown_event)
    × (type_of_key (codes "message_index:a:m") ≡ some RecordType.message_index)
    × (type_of_key (codes "message:a:m") ≡ some RecordType.stored_message)
    × (type_of_key (codes "message_reaction:a:m") ≡ some RecordType.message_reaction)
    × (type_of_key (codes "chat:a:m") ≡ some RecordType.chat)
    × (type_of_key (codes "group_profile:a:m") ≡ some RecordType.group_profile)
    × (type_of_key (codes "draft_mentions:a:m") ≡ some RecordType.draft_mentions)
    × (type_of_key (codes "draft:a:m") ≡ some RecordType.draft)
    × (type_of_key (codes "lid_map:a:m") ≡ some RecordType.lid_map)
    × (type_of_key (codes "sticker_cache:a:m") ≡ some RecordType.sticker_cache)
contract_for_families_example = contract_for_families (codes "a:m")
