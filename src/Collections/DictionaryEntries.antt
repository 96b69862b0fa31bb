-- ===== src/Collections/DictionaryEntries.antt =====
-- The entries of a dictionary that pass a test, as a dictionary of Source/NSDictionary.m.
use regexkit.Base.{
  ◌∷◌, [], refl, inr, sym, inl, arith, Bool-cases, ap, none, List, if◌then◌else◌, ◌∙◌, true, some,
  ◌≡◌, Option, Bool,
}
use regexkit.Collections.Matching.{select}
use regexkit.Collections.DictionaryActions.{
  DictionaryOf, find_entry, are_distinct, object_of_entry, is_absent,
}

-- An entry that passes a test.
abbrev pub filtered : {K V : Type 0} → (K × V → Bool) → Option (K × V) → Option (K × V)
filtered test none = none
filtered test (some e) = if test e then some e else none

module _ {K V : Type 0} (same : K → K → Bool)
    (same_sym : (j k : K) → same j k ≡ true → same k j ≡ true)
    (same_trans : (i j k : K) → same i j ≡ true → same j k ≡ true → same i k ≡ true) where
  -- Entries under the same key are found alike where there is none.
  find_entry-none_same :
      (es : List (K × V)) (j k : K)
      → same j k ≡ true
      → find_entry same es k ≡ none
      → find_entry same es j ≡ none
  find_entry-none_same [] j k s e = refl
  find_entry-none_same ((l, v) ∷ es) j k s e = elim (Bool-cases (same k l)) [
    | inl here ↦ absurd (ground (arith, rw here at e))
    | inr other ↦ elim (Bool-cases (same j l)) [
      | inl here ↦ absurd (ground (arith, other, same_trans k j l (same_sym j k s) here))
      | inr apart ↦ rw apart (find_entry-none_same es j k s (rw other at e))
    ]
  ]

  find_entry-select-none :
      (test : K × V → Bool) (es : List (K × V)) (j : K)
      → find_entry same es j ≡ none
      → find_entry same (select test es) j ≡ none
  find_entry-select-none test [] j e = refl
  find_entry-select-none test ((k, v) ∷ es) j e = elim (Bool-cases (same j k)) [
    | inl here ↦ absurd (ground (arith, rw here at e))
    | inr other ↦ elim (Bool-cases (test (k, v))) [
      | inl hit ↦ rw (hit, other) (find_entry-select-none test es j (rw other at e))
      | inr miss ↦ rw miss (find_entry-select-none test es j (rw other at e))
    ]
  ]

  none-found : (o : Option (K × V)) → is_absent o ≡ true → o ≡ none
  none-found none e = refl
  none-found (some x) e = absurd (ground (arith, e))

  pub select-distinct :
      (test : K × V → Bool) (es : List (K × V))
      → are_distinct same es ≡ true
      → are_distinct same (select test es) ≡ true
  select-distinct test [] d = refl
  select-distinct test ((k, v) ∷ es) d =
      let rest = select-distinct test es (ground (arith, d)) in
      let alone =
        find_entry-select-none test es k (none-found (find_entry same es k) (ground (arith, d))) in
      elim (Bool-cases (test (k, v))) [ inl hit ↦ rw (hit, alone) rest | inr miss ↦ rw miss rest ]

  pub find_entry-select :
      (test : K × V → Bool) (es : List (K × V)) (j : K)
      → are_distinct same es ≡ true
      → find_entry same (select test es) j ≡ filtered test (find_entry same es j)
  find_entry-select test [] j d = refl
  find_entry-select test ((k, v) ∷ es) j d =
      let rest = find_entry-select test es j (ground (arith, d)) in
      elim (Bool-cases (same j k)) [
        | inl here ↦
            let alone =
              find_entry-none_same es j k here
                (none-found (find_entry same es k) (ground (arith, d))) in
            elim (Bool-cases (test (k, v))) [
              | inl hit ↦ rw (hit, here) (rw hit refl)
              | inr miss ↦ rw (miss, here) (rw miss (find_entry-select-none test es j alone))
            ]
        | inr other ↦ elim (Bool-cases (test (k, v))) [
          | inl hit ↦ rw (hit, other) rest
          | inr miss ↦ rw (miss, other) rest
        ]
      ]

-- An object that passes a test.
abbrev pub filter_object : {V : Type 0} → (V → Bool) → Option V → Option V
filter_object test none = none
filter_object test (some v) = if test v then some v else none

module _ {K V : Type 0} (F : DictionaryOf K V) (object_is_matched : V → Bool) where
  open F use {Dictionary, same, entries, object_for_key, init_with_entries}

  -- A dictionary made of the entries that pass a test has those of the receiver that do.
  pub object_for_key-select :
      (test : K × V → Bool) (d : Dictionary) (j : K)
      → object_for_key (init_with_entries (select test (entries d))) j
        ≡ object_of_entry (filtered test (find_entry same (entries d) j))
  object_for_key-select test d j =
      F.object_for_key-init (select test (entries d)) j
        (select-distinct same F.same_sym F.same_trans test (entries d) (F.entries-distinct d))
      ∙ ap object_of_entry
          (find_entry-select same F.same_sym F.same_trans test (entries d) j (F.entries-distinct d))

  filter_object-entry :
      (e : Option (K × V))
      → object_of_entry (filtered (λ (k, v). object_is_matched v) e)
        ≡ filter_object object_is_matched (object_of_entry e)
  filter_object-entry none = refl
  filter_object-entry (some (k, v)) = elim (Bool-cases (object_is_matched v)) [
    | inl hit ↦ rw hit refl
    | inr miss ↦ rw miss refl
  ]

  pub object_for_key-select_object :
      (d : Dictionary) (j : K)
      → object_for_key (init_with_entries (select (λ (k, v). object_is_matched v) (entries d))) j
        ≡ filter_object object_is_matched (object_for_key d j)
  object_for_key-select_object d j =
      object_for_key-select (λ (k, v). object_is_matched v) d j
      ∙ filter_object-entry (find_entry same (entries d) j)
      ∙ ap (filter_object object_is_matched) (sym (F.object_for_key-entries d j))
