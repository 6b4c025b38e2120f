-- ===== src/Tests/Bloom.antt =====
-- kv/util/bloom.cpp at concrete keys.
use quas_db.Base.{◌≡◌, refl, true, false, [], ◌∷◌, length, drop, arith}
use quas_db.Util.Status.{bytes}
use quas_db.Util.Bloom.{new_bloom_filter_policy, create_filter, key_may_match}
use quas_db.Util.Bloom.Match.{key_may_match-create_filter}

foo_is_not_there :
    key_may_match
      (bytes "foo")
      (create_filter (new_bloom_filter_policy 10 6) (bytes "hello" ∷ bytes "world" ∷ []) [])
    ≡ false
unfolding key_may_match create_filter quas_db.Util.Bloom.add_keys quas_db.Util.Bloom.add_probes
    new_bloom_filter_policy quas_db.Util.Bloom.or_at quas_db.Util.Bloom.filter_bytes
    quas_db.Util.Hash.hash quas_db.Util.Hash.hash_loop quas_db.Util.Coding.decode_fixed32
    quas_db.Util.Bloom.match_probes
foo_is_not_there = refl

key_may_match-create_filter_example :
    key_may_match (bytes "world") (
      drop (length (bytes "old")) (
        create_filter
          (new_bloom_filter_policy 10 6)
          (bytes "hello" ∷ bytes "world" ∷ [])
          (bytes "old")))
    ≡ true
key_may_match-create_filter_example =
    key_may_match-create_filter 10 6 (bytes "hello" ∷ []) (bytes "world") [] (bytes "old")
      (omega arith)
