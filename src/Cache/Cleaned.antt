-- ===== src/Cache/Cleaned.antt =====
-- What the cleaning of the database leaves of an entry.
use locaccel.Prelude.{
  ℕ, String, [], ◌∷◌, Option, none, some, Bool, true, false, length, eqb, keep_if, ◌≡◌, ◌≢◌, ◌⊎◌,
  inl, inr, refl, sym, ap, ◌∙◌, arith, Option-cases, Bool-cases, eqb_iff, keep_if_all,
  if◌then◌else◌,
}
use locaccel.Database.{Badger, Codec, DbError, Entry, missing, get, save, delete}
use locaccel.Database.Laws.{BadgerLaws, CodecLaws}
use locaccel.Database.Deleted.{delete-missing}
use locaccel.Database.Versions.{get-save}
use locaccel.Client.{CachedResponse, CachedResponses}
use locaccel.Cache.{
  Stat, exists, not_exist, stat_failed, valid_values, as_callback, write_valid,
  prune_database_entry,
}

module _ (stat : String → Stat) where
  abbrev pub is_there : Stat → Bool
  is_there (exists size) = true
  is_there not_exist = false
  is_there stat_failed = false

  -- the responses whose file is in the cache
  abbrev pub with_file : CachedResponses → CachedResponses
  with_file value = keep_if (λ resp. is_there (stat resp.content_hash)) value

  kept_at :
      (resp : CachedResponse) (s : Stat) (rest : Option CachedResponses)
      (value valid : CachedResponses)
      → ((valid' : CachedResponses) → rest ≡ some valid' → valid' ≡ with_file value)
      → (elim s as (λ x. Option CachedResponses) [
        | exists size ↦ elim rest as (λ x. Option CachedResponses) [
          | none ↦ none
          | some valid' ↦ some (resp ∷ valid')
        ]
        | not_exist ↦ rest
        | stat_failed ↦ none
      ])
        ≡ some valid
      → valid ≡ (if is_there s then resp ∷ with_file value else with_file value)
  kept_at resp (exists size) none value valid ih h = absurd (ground (arith, h))
  kept_at resp (exists size) (some v) value valid ih h =
      let e : resp ∷ v ≡ valid = ground (arith, h) in sym e ∙ ap (λ vs. resp ∷ vs) (ih v refl)
  kept_at resp not_exist rest value valid ih h = ih valid h
  kept_at resp stat_failed rest value valid ih h = absurd (ground (arith, h))

  valid_values-with_file :
      (value valid : CachedResponses)
      → valid_values stat value ≡ some valid
      → valid ≡ with_file value
  unfolding valid_values
  valid_values-with_file [] valid h = ground (arith, h)
  valid_values-with_file (resp ∷ value) valid h =
      kept_at resp (stat resp.content_hash) (valid_values stat value) value valid
        (valid_values-with_file value) h

no_members : (cs : CachedResponses) → eqb (length cs) 0 ≡ true → cs ≡ []
no_members [] h = refl
no_members (c ∷ cs) h = absurd (ground (arith, h))

-- Lists of one length are empty together.
none_or_some :
    (before rest : CachedResponses) → length rest ≡ length before → (before ≡ []) ⊎ (rest ≢ [])
none_or_some [] rest e = inl refl
none_or_some (c ∷ before) rest e = inr (λ empty. absurd (ground (arith, e, ap length empty)))

module _ (badger : Badger) (codec : Codec CachedResponses badger.Bytes) (laws : BadgerLaws badger)
    (codec_laws : CodecLaws codec) (stat : String → Stat) where
  callback-none :
      (d : badger.Db × Option DbError) (db' : badger.Db)
      → as_callback d ≡ (db', true)
      → d ≡ (db', none)
  callback-none (db, none) db' h = ground (arith, h)
  callback-none (db, some err) db' h = absurd (ground (arith, h))

  -- Of the responses `before` the `rest` have a file. If there was one, and none is left, the key is
  -- missing; else it reads as the rest.
  abbrev pub IsCleaned :
      badger.Db → String → Entry CachedResponses → CachedResponses → CachedResponses → Type 0
  IsCleaned db' key into before rest =
      ((before ≢ []) × (rest ≡ []) × (badger.txn_get db' key ≡ missing))
      ⊎ (((before ≡ []) ⊎ (rest ≢ []))
          × ((v : ℕ) × (get badger codec db' key into
                ≡ (record { value = rest; version = v }, none))))

  written :
      (db db' : badger.Db) (key : String) (value into : Entry CachedResponses)
      (valid : CachedResponses)
      → get badger codec db key into ≡ (value, none)
      → valid ≡ with_file stat value.value
      → write_valid badger codec key value db (some valid) ≡ (db', true)
      → IsCleaned db' key into value.value valid
  written db db' key value into valid here v h =
      elim (Bool-cases (eqb (length valid) (length value.value))) [
        | inl e ↦
            let all : valid ≡ value.value =
              v ∙ keep_if_all _ value.value (ap length (sym v) ∙ (eqb_iff _ _).0 e) in
            let same : db ≡ db' = ground (arith, e, h) in
            inr (
              none_or_some value.value valid ((eqb_iff _ _).0 e),
              (
                value.version,
                ap (λ d. get badger codec d key into) (sym same)
                    ∙ here
                    ∙ ap (λ vs. (record { value = vs; version = value.version }, none)) (sym all),
              ),
            )
        | inr e ↦ elim (Bool-cases (eqb (length valid) 0)) [
          | inl z ↦ inl (
            λ empty. absurd (ground (arith, e, z, ap length empty)),
            no_members valid z,
            delete-missing badger codec laws db db' key value
                (callback-none (delete badger codec db key value) db' (ground (arith, e, z, h))),
          )
          | inr z ↦
              let (before, (v, at, pos, newer)) =
                get-save badger codec laws codec_laws db db' key (record value { value = valid })
                  into
                  (callback-none (save badger codec db key (record value { value = valid })) db'
                    (ground (arith, e, z, h))) in
              inr (inr (λ empty. absurd (ground (arith, z, ap length empty))), (v, at))
        ]
      ]

  -- The entry that the key has is cleaned without an error: afterwards the key has, in their order,
  -- the responses whose file is in the cache, and it is missing if none of them is and there was one.
  pub prune_database_entry-IsCleaned :
      (db db' : badger.Db) (key : String) (value into : Entry CachedResponses)
      → get badger codec db key into ≡ (value, none)
      → prune_database_entry badger codec stat key value db ≡ (db', true)
      → IsCleaned db' key into value.value (with_file stat value.value)
  unfolding prune_database_entry
  prune_database_entry-IsCleaned db db' key value into here h =
      elim (Option-cases (valid_values stat value.value)) [
        | inl e ↦ absurd (ground (arith, e, h))
        | inr (valid, e) ↦ rw (sym (valid_values-with_file stat value.value valid e)) (
            written db db' key value into valid here
              (valid_values-with_file stat value.value valid e)
              (ap (write_valid badger codec key value db) (sym e) ∙ h))
      ]
