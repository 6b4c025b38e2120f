-- ===== src/Db/WriteBatch/Iterate.antt =====
-- Iterate tells a handler the updates of a batch in their order.
use quas_db.Base.{
  ℕ, zero, suc, ◌+◌, ◌%◌, ◌^◌, ◌≤◌, ◌<◌, ◌≡◌, ◌≢◌, ◌∙◌, none, some, List, [], ◌∷◌, ◌++◌, length,
  drop, ltb, false, All, length-append, append_assoc, Option-cases, inl, inr, arith,
}
use quas_db.Util.Coding.{put_length_prefixed_slice, get_length_prefixed_slice}
use quas_db.Util.Coding.Decode.{get_length_prefixed_slice_takes}
use quas_db.Util.Coding.RoundTrip.{get_length_prefixed_slice-put}
use quas_db.Util.Status.{ok}
use quas_db.Db.WriteBatch.{header, count, Handler, iterate_loop, iterate}
use quas_db.Db.WriteBatch.Records.{
  Update, store, erase, record_bytes, records, rep_of, drop-header-rep_of, count-rep_of,
  length-rep_of,
}

-- Keys and values whose length fits the 32 bits of its prefix.
abbrev pub Fits : Update → Type 0
Fits (store key val) = (length key < 2 ^ 32) × (length val < 2 ^ 32)
Fits (erase key) = length key < 2 ^ 32

module _ {S : Type 0} (h : Handler S) where
  abbrev pub tell : S → Update → S
  tell s (store key val) = h.on_put s key val
  tell s (erase key) = h.on_delete s key

  -- The handler told of all the updates in turn.
  unfoldable pub tell_all : S → List Update → S
  tell_all s [] = s
  tell_all s (u ∷ us) = tell_all (tell s u) us

  module _ (total : ℕ) where
    -- One round of the loop on a well-formed record.
    round :
        (fuel : ℕ) (u : Update) (rest : List ℕ) (found : ℕ) (s : S)
        → Fits u
        → iterate_loop h total (suc fuel) (record_bytes u ++ rest) found s
          ≡ iterate_loop h total fuel rest (found + 1) (tell s u)
    unfolding iterate_loop
    round fuel (store key val) rest found s (hk, hv) = rw (
      append_assoc (put_length_prefixed_slice [] key) (put_length_prefixed_slice [] val) rest,
      get_length_prefixed_slice-put key (put_length_prefixed_slice [] val ++ rest) hk,
      get_length_prefixed_slice-put val rest hv,
    )
    round fuel (erase key) rest found s hk = rw (get_length_prefixed_slice-put key rest hk)

    no_updates :
        (fuel found : ℕ) (s : S)
        → total ≡ found % 2 ^ 32
        → iterate_loop h total fuel (records []) found s ≡ some (tell_all s [], ok)
    unfolding iterate_loop records tell_all
    no_updates zero found s e = ground arith
    no_updates (suc fuel) found s e = ground arith

    iterate_loop-records :
        (us : List Update) (fuel found : ℕ) (s : S)
        → All Fits us
        → length us ≤ fuel
        → found + length us < 2 ^ 32
        → total ≡ found + length us
        → iterate_loop h total fuel (records us) found s ≡ some (tell_all s us, ok)
    unfolding records tell_all
    iterate_loop-records [] fuel found s hs hf small e = no_updates fuel found s (omega arith)
    iterate_loop-records (u ∷ us) zero found s hs hf small e = absurd (omega arith)
    iterate_loop-records (u ∷ us) (suc fuel) found s (hu, hs) hf small e =
        round fuel u (records us) found s hu
        ∙ iterate_loop-records us fuel (found + 1) (tell s u) hs (omega arith) (omega arith)
            (omega arith)

    -- With fuel for each byte the loop gives a result.
    iterate_loop-ne-none :
        (fuel : ℕ) (input : List ℕ) (found : ℕ) (s : S)
        → length input ≤ fuel
        → iterate_loop h total fuel input found s ≢ none
    unfolding iterate_loop
    iterate_loop-ne-none zero [] found s hf = λ e. cc
    iterate_loop-ne-none (suc fuel) [] found s hf = λ e. cc
    iterate_loop-ne-none zero (tag ∷ input) found s hf = absurd (omega arith)
    iterate_loop-ne-none (suc fuel) (tag ∷ input) found s hf =
        elim (Option-cases (get_length_prefixed_slice input)) [
          | inl bad ↦ ground arith
          | inr ((key, rest), e) ↦
              let shorter = get_length_prefixed_slice_takes input key rest e in
              let erased =
                iterate_loop-ne-none fuel rest (found + 1) (h.on_delete s key) (omega arith) in
              elim (Option-cases (get_length_prefixed_slice rest)) [
                | inl bad ↦ ground arith
                | inr ((val, rest'), e') ↦
                    let shorter' = get_length_prefixed_slice_takes rest val rest' e' in
                    let stored =
                      iterate_loop-ne-none fuel rest' (found + 1) (h.on_put s key val)
                        (omega arith) in
                    ground arith
              ]
        ]

-- Iterate ends on every string, well formed or not: the fuel never runs out.
pub iterate-ne-none : {S : Type 0} (h : Handler S) (rep : List ℕ) (s : S) → iterate h rep s ≢ none
unfolding iterate
iterate-ne-none h rep s =
    ground
      (arith, iterate_loop-ne-none h (count rep) (length (drop header rep)) (drop header rep) 0 s)

length-record : (u : Update) (rest : List ℕ) → suc (length rest) ≤ length (record_bytes u ++ rest)
length-record (store key val) rest = omega (
  arith,
  length-append (put_length_prefixed_slice [] key ++ put_length_prefixed_slice [] val) rest,
)
length-record (erase key) rest =
    omega (arith, length-append (put_length_prefixed_slice [] key) rest)

length-records : (us : List Update) → length us ≤ length (records us)
unfolding records
length-records [] = omega arith
length-records (u ∷ us) = omega (arith, length-records us, length-record u (records us))

-- Iterating over a batch of fewer than 2^32 updates, whose keys and values have lengths below 2^32,
-- tells the handler exactly the batch's updates, in order, and returns OK.
pub iterate-rep_of :
    {S : Type 0} (h : Handler S) (seq : ℕ) (us : List Update) (s : S)
    → All Fits us
    → length us < 2 ^ 32
    → iterate h (rep_of seq us) s ≡ some (tell_all h s us, ok)
unfolding iterate
iterate-rep_of h seq us s hs small =
    rw (long_enough, drop-header-rep_of seq us, count-rep_of seq us small)
      (iterate_loop-records h (length us) us (length (records us)) 0 s hs (length-records us)
        (omega arith) (omega arith))
  where
    long_enough : ltb (length (rep_of seq us)) header ≡ false
    long_enough = ground (arith, length-rep_of seq us)
