-- ===== src/Util/Hash/Laws.antt =====
-- The hash depends on the data as a map, and the bytes that are hashed determine the map.
use yet_another_mysql_operat.Prelude.{
  zero, ◌≡◌, ◌≢◌, refl, sym, ap, ap₂, ◌∙◌, true, List, [], ◌∷◌, ◌++◌, arith, All, inl, inr,
  Bool-cases,
}
use yet_another_mysql_operat.Prelude.Text.{Text, Lacks, text_eq, text_eq_iff}
use yet_another_mysql_operat.Prelude.Assoc.{Map, Distinct, elem, get, keys}
use yet_another_mysql_operat.Prelude.Assoc.Laws.{elem-keys}
use yet_another_mysql_operat.Prelude.Sort.{sort_texts}
use yet_another_mysql_operat.Prelude.Sort.Laws.{elem-sort_texts}
use yet_another_mysql_operat.Prelude.Sort.Keys.{SameMap, sorted_keys_agree}
use yet_another_mysql_operat.Util.Hash.{or_zero, write_entries, digest_input, hash_config_map_data}

write_entries-SameMap :
    (m n : Map Text) (ks : List Text) → SameMap m n → write_entries m ks ≡ write_entries n ks
unfolding write_entries
write_entries-SameMap m n [] same = refl
write_entries-SameMap m n (k ∷ ks) same = cc (same k, write_entries-SameMap m n ks same)

pub digest_input-SameMap :
    (m n : Map Text) → Distinct m → Distinct n → SameMap m n → digest_input m ≡ digest_input n
unfolding digest_input
digest_input-SameMap m n dm dn same =
    rw (sorted_keys_agree m n dm dn same) (write_entries-SameMap m n _ same)

-- A map with an entry differs from the empty one.
empty_agrees : (k v : Text) (m : Map Text) → SameMap [] ((k, v) ∷ m) → ⊥
unfolding get
empty_agrees k v m same = ground (arith, same k, text_eq_iff k k)

-- Maps with the same entries have the same hash, whatever order a range visits them in.
pub hash-SameMap :
    (sha256_hex : Text → Text) (m n : Map Text)
    → Distinct m
    → Distinct n
    → SameMap m n
    → hash_config_map_data sha256_hex m ≡ hash_config_map_data sha256_hex n
unfolding hash_config_map_data
hash-SameMap sha [] [] dm dn same = refl
hash-SameMap sha [] ((k, v) ∷ n) dm dn same = absurd (empty_agrees k v n same)
hash-SameMap sha ((k, v) ∷ m) [] dm dn same = absurd (empty_agrees k v m (λ j. sym (same j)))
hash-SameMap sha (e ∷ m) (f ∷ n) dm dn same =
    ap sha (digest_input-SameMap (e ∷ m) (f ∷ n) dm dn same)

-- No key and no value holds the byte 0.
abbrev pub IsClean : Map Text → Type 0
IsClean [] = Unit
IsClean ((k, v) ∷ m) = Lacks zero k × Lacks zero v × IsClean m

cut_ne_nil : (p s : Text) → p ++ zero ∷ s ≢ []
cut_ne_nil [] s = cc
cut_ne_nil (c ∷ p) s = cc

-- A text up to its first byte 0 can be told from what follows.
cut_at_zero :
    (p q s t : Text)
    → Lacks zero p
    → Lacks zero q
    → p ++ zero ∷ s ≡ q ++ zero ∷ t
    → (p ≡ q) × (s ≡ t)
cut_at_zero [] [] s t hp hq e = (refl, cc)
cut_at_zero [] (d ∷ q) s t hp hq e = ground arith
cut_at_zero (c ∷ p) [] s t hp hq e = ground arith
cut_at_zero (c ∷ p) (d ∷ q) s t hp hq e = let (a, b) = cut_at_zero p q s t hp.1 hq.1 (cc) in (cc, b)

values_clean : (m : Map Text) (k : Text) → IsClean m → Lacks zero (or_zero (get k m))
unfolding get
values_clean [] k h = tt
values_clean ((j, v) ∷ m) k h = ground (arith, values_clean m k h.2)

keys_clean : (m : Map Text) (k : Text) → IsClean m → elem k (keys m) ≡ true → Lacks zero k
unfolding elem keys
keys_clean [] k h e = cc
keys_clean ((j, v) ∷ m) k h e = elim (Bool-cases (text_eq j k)) [
  | inl at ↦ rw (← (text_eq_iff j k).0 at) h.0
  | inr at ↦ keys_clean m k h.2 (ground arith)
]

abbrev AgreeOn : Map Text → Map Text → List Text → Type 0
AgreeOn m n = All (λ k. or_zero (get k m) ≡ or_zero (get k n))

-- The bytes that the loop writes determine the keys and their values.
write_entries_injective :
    (m n : Map Text) (ks js : List Text)
    → IsClean m
    → IsClean n
    → All (Lacks zero) ks
    → All (Lacks zero) js
    → write_entries m ks ≡ write_entries n js
    → (ks ≡ js) × AgreeOn m n ks
unfolding write_entries
write_entries_injective m n [] [] cm cn hk hj e = (refl, tt)
write_entries_injective m n [] (j ∷ js) cm cn hk hj e = absurd (cut_ne_nil j _ (sym e))
write_entries_injective m n (k ∷ ks) [] cm cn hk hj e = absurd (cut_ne_nil k _ e)
write_entries_injective m n (k ∷ ks) (j ∷ js) cm cn hk hj e =
    let (same_key, rest) = cut_at_zero k j _ _ hk.0 hj.0 e in
    let (same_value, rest') =
      cut_at_zero (or_zero (get k m)) (or_zero (get j n)) _ _ (values_clean m k cm)
        (values_clean n j cn) rest in
    let (same_keys, values) = write_entries_injective m n ks js cm cn hk.1 hj.1 rest' in
    (ap₂ ◌∷◌ same_key same_keys, (same_value ∙ ap (λ z. or_zero (get z n)) (sym same_key), values))

members_clean :
    (m : Map Text) (ks : List Text)
    → IsClean m
    → ((k : Text) → elem k ks ≡ true → elem k (keys m) ≡ true)
    → All (Lacks zero) ks
unfolding elem
members_clean m [] c h = tt
members_clean m (k ∷ ks) c h = (
  keys_clean m k c (h k (ground (arith, text_eq_iff k k))),
  members_clean m ks c (λ j e. h j (ground arith)),
)

sorted_clean : (m : Map Text) → IsClean m → All (Lacks zero) (sort_texts (keys m))
sorted_clean m c =
    members_clean m (sort_texts (keys m)) c (λ k e. sym (elem-sort_texts k (keys m)) ∙ e)

agree_at :
    (m n : Map Text) (k : Text) (ks : List Text)
    → AgreeOn m n ks
    → elem k ks ≡ true
    → or_zero (get k m) ≡ or_zero (get k n)
unfolding elem
agree_at m n k [] a e = cc
agree_at m n k (j ∷ ks) a e = elim (Bool-cases (text_eq j k)) [
  | inl at ↦ rw (← (text_eq_iff j k).0 at) a.0
  | inr at ↦ agree_at m n k ks a.1 (ground arith)
]

-- Data without the byte 0 is determined by the bytes that are hashed.
pub digest_input_injective :
    (m n : Map Text) → IsClean m → IsClean n → digest_input m ≡ digest_input n → SameMap m n
unfolding digest_input
digest_input_injective m n cm cn e k =
    let (same_keys, values) =
      write_entries_injective m n (sort_texts (keys m)) (sort_texts (keys n)) cm cn
        (sorted_clean m cm) (sorted_clean n cn) e in
    ground (
      arith,
      ap (elem k) same_keys,
      elem-sort_texts k (keys m),
      elem-sort_texts k (keys n),
      elem-keys k m,
      elem-keys k n,
      agree_at m n k (sort_texts (keys m)) values,
    )
