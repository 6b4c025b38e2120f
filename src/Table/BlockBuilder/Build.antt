-- ===== src/Table/BlockBuilder/Build.antt =====
-- What Add leaves in the buffer and in the restart array.
use quas_db.Base.{
  ℕ, ◌+◌, ◌%◌, ◌^◌, ◌<◌, ◌≤◌, ◌≡◌, refl, sym, ap, ◌∙◌, false, ltb, ◌==◌, Bool-cases, ◌⊎◌, inl, inr,
  List, [], ◌∷◌, ◌++◌, All, All-append, length, length-append, append_assoc, append-nil, take, drop,
  take-append-drop, arith,
}
use quas_db.Util.Comparator.Shorten.{shared_size, common_prefix_loop-shared}
use quas_db.Table.BlockBuilder.{BlockBuilder, new_block_builder, shared_bytes, add_entry}
use quas_db.Table.Block.Entry.{entry_code, put_entry-entry_code}
use quas_db.Table.Block.Spells.{Spells}

-- The entries, added one after the other.
unfoldable pub add_entries : ℕ → BlockBuilder → List (List ℕ × List ℕ) → BlockBuilder
add_entries interval b [] = b
add_entries interval b ((key, value) ∷ es) =
    add_entries interval (add_entry interval b key value) es

abbrev pub FitsEntry : List ℕ × List ℕ → Type 0
FitsEntry (key, value) = length key + length value < 2 ^ 32

abbrev pub last_key_of : List ℕ → List (List ℕ × List ℕ) → List ℕ
last_key_of last [] = last
last_key_of last ((key, value) ∷ es) = last_key_of key es

Spells-snoc :
    (last : List ℕ) (es : List (List ℕ × List ℕ)) (bytes : List ℕ) (shared : ℕ) (key value : List ℕ)
    → Spells last es bytes
    → shared ≤ length (last_key_of last es)
    → shared ≤ length key
    → take shared (last_key_of last es) ≡ take shared key
    → length key + length value < 2 ^ 32
    → Spells last (es ++ ((key, value) ∷ [])) (bytes ++ entry_code shared key value)
Spells-snoc last [] bytes shared key value e hs hk same fits = (
  shared,
  [],
  ap (λ (t : List ℕ). t ++ entry_code shared key value) e
      ∙ sym (append-nil (entry_code shared key value)),
  hs,
  hk,
  same,
  fits,
  refl,
)
Spells-snoc last ((k, v) ∷ es) bytes shared key value (sh, rest, e, a, b, c, d, more) hs hk same
      fits =
    (
      sh,
      rest ++ entry_code shared key value,
      ap (λ (t : List ℕ). t ++ entry_code shared key value) e
          ∙ append_assoc (entry_code sh k v) rest (entry_code shared key value),
      a,
      b,
      c,
      d,
      Spells-snoc k es rest shared key value more hs hk same fits,
    )

-- A restart point: a place in the buffer from which some of the last entries are spelled in full.
pub record IsRestart (es : List (List ℕ × List ℕ)) (buffer : List ℕ) (point : ℕ) : Type 0 where
  pub before : List (List ℕ × List ℕ)
  pub key : List ℕ
  pub value : List ℕ
  pub after : List (List ℕ × List ℕ)
  pub entries : es ≡ before ++ ((key, value) ∷ after)
  pub behind : List ℕ
  pub bytes : List ℕ
  pub split : buffer ≡ behind ++ bytes
  pub place : point ≡ length behind
  pub spells : Spells [] ((key, value) ∷ after) bytes

last_key_of-append :
    (last : List ℕ) (before : List (List ℕ × List ℕ)) (key value : List ℕ)
    (after : List (List ℕ × List ℕ))
    → last_key_of last (before ++ ((key, value) ∷ after)) ≡ last_key_of key after
last_key_of-append last [] key value after = refl
last_key_of-append last ((k, v) ∷ before) key value after =
    last_key_of-append k before key value after

pub record Built (es : List (List ℕ × List ℕ)) (b : BlockBuilder) : Type 0 where
  pub spells : Spells [] es b.buffer
  pub last : b.last_key ≡ last_key_of [] es
  pub first : (more : List ℕ) × (b.restarts ≡ 0 ∷ more)
  pub points : ((es ≡ []) × (b.restarts ≡ 0 ∷ [])) ⊎ All (IsRestart es b.buffer) b.restarts

shared_size_fits :
    (a b : List ℕ)
    → (shared_size a b ≤ length a)
      × (shared_size a b ≤ length b)
      × (take (shared_size a b) a ≡ take (shared_size a b) b)
unfolding shared_size
shared_size_fits [] b = (omega arith, omega arith, refl)
shared_size_fits (x ∷ a) [] = (omega arith, omega arith, refl)
shared_size_fits (x ∷ a) (y ∷ b) = elim (Bool-cases (x == y)) [
  | inl same ↦
      let (left, right, e) = shared_size_fits a b in
      let here : x ≡ y = ground arith in
      rw same (
        omega arith,
        omega arith,
        ap (λ (t : List ℕ). x ∷ t) e ∙ ap (λ (z : ℕ). z ∷ take (shared_size a b) b) here,
      )
  | inr other ↦ rw other (omega arith, omega arith, refl)
]

module _ (interval : ℕ) (b : BlockBuilder) (key value : List ℕ) where
  abbrev shared : ℕ
  shared = shared_bytes interval b key

  shared_bytes_fits :
      (shared ≤ length b.last_key)
      × (shared ≤ length key)
      × (take shared b.last_key ≡ take shared key)
  unfolding shared_bytes
  shared_bytes_fits = elim (Bool-cases (ltb b.counter interval)) [
    | inl more ↦
        rw (more, common_prefix_loop-shared b.last_key key) (shared_size_fits b.last_key key)
    | inr restart ↦ rw restart (omega arith, omega arith, refl)
  ]

  buffer-add_entry :
      FitsEntry (key, value)
      → (add_entry interval b key value).buffer ≡ b.buffer ++ entry_code shared key value
  unfolding add_entry
  buffer-add_entry fits =
      put_entry-entry_code b.buffer shared key value (omega (arith, shared_bytes_fits))
        (omega arith) (omega arith)

  last_key-add_entry : (add_entry interval b key value).last_key ≡ key
  unfolding add_entry
  last_key-add_entry =
      ap (λ (t : List ℕ). t ++ drop shared key) shared_bytes_fits.2 ∙ take-append-drop shared key

  IsRestart-snoc :
      (es : List (List ℕ × List ℕ)) (point : ℕ)
      → FitsEntry (key, value)
      → b.last_key ≡ last_key_of [] es
      → IsRestart es b.buffer point
      → IsRestart (es ++ ((key, value) ∷ [])) (b.buffer ++ entry_code shared key value) point
  IsRestart-snoc es point fits last r =
      let (left, right, same) = shared_bytes_fits in
      let ends : last_key_of [] ((r.key, r.value) ∷ r.after) ≡ b.last_key = sym (
        last
        ∙ (ap (last_key_of []) r.entries ∙ last_key_of-append [] r.before r.key r.value r.after)) in
      record {
        before = r.before;
        key = r.key;
        value = r.value;
        after = r.after ++ ((key, value) ∷ []);
        entries =
            ap (λ (t : List (List ℕ × List ℕ)). t ++ ((key, value) ∷ [])) r.entries
            ∙ append_assoc r.before ((r.key, r.value) ∷ r.after) ((key, value) ∷ []);
        behind = r.behind;
        bytes = r.bytes ++ entry_code shared key value;
        split =
            ap (λ (t : List ℕ). t ++ entry_code shared key value) r.split
            ∙ append_assoc r.behind r.bytes (entry_code shared key value);
        place = r.place;
        spells =
            Spells-snoc [] ((r.key, r.value) ∷ r.after) r.bytes shared key value r.spells
              (rw ends left) right (ap (take shared) ends ∙ same) fits;
      }

  new_restart :
      (es : List (List ℕ × List ℕ)) (point : ℕ)
      → FitsEntry (key, value)
      → shared ≡ 0
      → point ≡ length b.buffer
      → IsRestart (es ++ ((key, value) ∷ [])) (b.buffer ++ entry_code shared key value) point
  new_restart es point fits none_shared place = record {
    before = es;
    key = key;
    value = value;
    after = [];
    entries = refl;
    behind = b.buffer;
    bytes = entry_code shared key value;
    split = refl;
    place = place;
    spells =
        Spells-snoc [] [] [] shared key value refl (omega (arith, none_shared))
          (omega (arith, none_shared)) (rw none_shared refl) fits;
  }

  no_shared : ltb b.counter interval ≡ false → shared ≡ 0
  unfolding shared_bytes
  no_shared restart = rw restart refl

  old_points :
      (es : List (List ℕ × List ℕ))
      → FitsEntry (key, value)
      → Built es b
      → All
          (IsRestart (es ++ ((key, value) ∷ [])) (b.buffer ++ entry_code shared key value))
          b.restarts
  old_points es fits built = elim built.points [
    | inl (nothing, start) ↦
        only_point b.restarts start
          (new_restart es 0 fits (no_key nothing) (sym (ap length (rw nothing at built.spells))))
    | inr points ↦ all_points b.restarts points
  ]
    where
      no_key : es ≡ [] → shared ≡ 0
      no_key nothing =
          omega (arith, shared_bytes_fits, ap length (built.last ∙ ap (last_key_of []) nothing))

      only_point :
          (rs : List ℕ)
          → rs ≡ 0 ∷ []
          → IsRestart (es ++ ((key, value) ∷ [])) (b.buffer ++ entry_code shared key value) 0
          → All (IsRestart (es ++ ((key, value) ∷ [])) (b.buffer ++ entry_code shared key value)) rs
      only_point rs e p = rw e (p, tt)

      all_points :
          (rs : List ℕ)
          → All (IsRestart es b.buffer) rs
          → All (IsRestart (es ++ ((key, value) ∷ [])) (b.buffer ++ entry_code shared key value)) rs
      all_points [] h = tt
      all_points (r ∷ rs) (p, h) = (IsRestart-snoc es r fits built.last p, all_points rs h)

  restarts-add_entry :
      (P : ℕ → Type 0)
      → All P b.restarts
      → (ltb b.counter interval ≡ false → P (length b.buffer % 2 ^ 32))
      → All P (add_entry interval b key value).restarts
  unfolding add_entry
  restarts-add_entry P old new = elim (Bool-cases (ltb b.counter interval)) [
    | inl more ↦ rw more old
    | inr restart ↦
        rw restart (All-append P b.restarts (length b.buffer % 2 ^ 32 ∷ []) old (new restart, tt))
  ]

  first-add_entry :
      (more : List ℕ)
      → b.restarts ≡ 0 ∷ more
      → (more' : List ℕ) × ((add_entry interval b key value).restarts ≡ 0 ∷ more')
  unfolding add_entry
  first-add_entry more e = elim (Bool-cases (ltb b.counter interval)) [
    | inl less ↦ (more, rw less e)
    | inr restart ↦ (
      more ++ (length b.buffer % 2 ^ 32 ∷ []),
      rw restart (ap (λ (t : List ℕ). t ++ (length b.buffer % 2 ^ 32 ∷ [])) e),
    )
  ]

  add_entry-Built :
      (es : List (List ℕ × List ℕ))
      → FitsEntry (key, value)
      → length b.buffer < 2 ^ 32
      → Built es b
      → Built (es ++ ((key, value) ∷ [])) (add_entry interval b key value)
  add_entry-Built es fits small built =
      let (left, right, same) = shared_bytes_fits in
      let e = buffer-add_entry fits in
      record {
        spells = rw e (
            Spells-snoc [] es b.buffer shared key value built.spells (rw (sym built.last) left)
              right (ap (take shared) (sym built.last) ∙ same) fits);
        last = last_key-add_entry ∙ sym (last_key_of-append [] es key value []);
        first = first-add_entry built.first.0 built.first.1;
        points = inr (
            restarts-add_entry
              (IsRestart (es ++ ((key, value) ∷ [])) (add_entry interval b key value).buffer)
              (rw e (old_points es fits built))
              (λ restart. rw e (
                new_restart es (length b.buffer % 2 ^ 32) fits (no_shared restart) (omega arith))));
      }

new_block_builder-Built : Built [] new_block_builder
unfolding new_block_builder
new_block_builder-Built = record {
  spells = refl;
  last = refl;
  first = ([], refl);
  points = inl (refl, refl);
}

buffer_grows :
    (interval : ℕ) (b : BlockBuilder) (es : List (List ℕ × List ℕ))
    → All FitsEntry es
    → length b.buffer ≤ length (add_entries interval b es).buffer
unfolding add_entries
buffer_grows interval b [] h = omega arith
buffer_grows interval b ((key, value) ∷ es) (fits, h) = omega (
  arith,
  buffer_grows interval (add_entry interval b key value) es h,
  ap length (buffer-add_entry interval b key value fits),
  length-append b.buffer (entry_code (shared_bytes interval b key) key value),
)

add_entries-Built_on :
    (interval : ℕ) (b : BlockBuilder) (old es : List (List ℕ × List ℕ))
    → All FitsEntry es
    → length (add_entries interval b es).buffer < 2 ^ 32
    → Built old b
    → Built (old ++ es) (add_entries interval b es)
unfolding add_entries
add_entries-Built_on interval b old [] h small built = rw (append-nil old) built
add_entries-Built_on interval b old ((key, value) ∷ es) (fits, h) small built =
    let first = add_entry interval b key value in
    rw (sym (append_assoc old ((key, value) ∷ []) es)) (
      add_entries-Built_on interval first (old ++ ((key, value) ∷ [])) es h small (
        add_entry-Built interval b key value old fits
          (omega (arith, buffer_grows interval b ((key, value) ∷ es) (fits, h))) built))

-- The buffer spells the entries that were added, and each restart point starts some of the last of
-- them in full, where the buffer stays below 2^32 bytes.
pub add_entries-Built :
    (interval : ℕ) (es : List (List ℕ × List ℕ))
    → All FitsEntry es
    → length (add_entries interval new_block_builder es).buffer < 2 ^ 32
    → Built es (add_entries interval new_block_builder es)
add_entries-Built interval es h small =
    add_entries-Built_on interval new_block_builder [] es h small new_block_builder-Built
