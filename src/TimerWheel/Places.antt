-- ===== src/TimerWheel/Places.antt =====
-- The buckets, and what `_insert` does to them and to `_entries`.
use native.Mathlib.Decide.{dec_lt}
use bazaar_compute_node.Prelude.{
  ℕ, ◌-◌, ◌≤◌, ◌≡◌, inl, inr, refl, arith, Bool, true, false, ◌&&◌, some, ◌==◌, if◌then◌else◌, ◌∷◌,
  Bool-cases,
}
use bazaar_compute_node.Prelude.Dict.{get, put, get-put}
use bazaar_compute_node.TimerWheel.{
  TimerWheel, Entry, Bucket, Level, near, upper, bucket, select, set_bucket, set_near, set_upper,
  new_entry, place_of, insert,
}
use bazaar_compute_node.TimerWheel.Bits.{place_near, place_far, far_level-lt, far_level-block}
use bazaar_compute_node.TimerWheel.Inv.{Fits}

abbrev pub same_place : Level → ℕ → Level → ℕ → Bool
same_place near s near s' = s == s'
same_place near s (upper l') s' = false
same_place (upper l) s near s' = false
same_place (upper l) s (upper l') s' = (l == l') && (s == s')

pub same_place-true :
    (l : Level) (s : ℕ) (l' : Level) (s' : ℕ) → same_place l s l' s' ≡ true → (l ≡ l') × (s ≡ s')
same_place-true near s near s' h = ground (arith)
same_place-true near s (upper l') s' h = ground (arith)
same_place-true (upper l) s near s' h = ground (arith)
same_place-true (upper l) s (upper l') s' h = ground (arith)

pub same_place_self : (l : Level) (s : ℕ) → same_place l s l s ≡ true
same_place_self near s = ground arith
same_place_self (upper l) s = ground arith

pub bucket-set_bucket :
    (l : Level) (s : ℕ) (b : Bucket) (w : TimerWheel) (l' : Level) (s' : ℕ)
    → bucket (set_bucket l s b w) l' s' ≡ (if same_place l s l' s' then b else bucket w l' s')
unfolding select set_bucket set_near set_upper
bucket-set_bucket near s b w near s' = refl
bucket-set_bucket near s b w (upper l') s' = refl
bucket-set_bucket (upper l) s b w near s' = refl
bucket-set_bucket (upper l) s b w (upper l') s' = refl

pub place-Fits : (lo k t d : ℕ) → lo ≤ d → t ≤ d → Fits lo k t d (place_of t d).0 (place_of t d).1
place-Fits lo k t d h h' = elim (dec_lt (d - t) 256) [
  | yes p ↦ rw (place_near t d p) (h, refl)
  | no p ↦
      rw (place_far t d (omega arith))
        (far_level-lt t d, refl, h', λ _. far_level-block t d (omega arith))
]

-- `get` in a bucket, and in `_entries`, after `_insert`.
module _ (i d g : ℕ) (w : TimerWheel) where
  abbrev pub entry : Entry
  entry = new_entry w.current_tick i d g

  pub bucket-insert :
      (l : Level) (s : ℕ)
      → bucket (insert i d g w) l s ≡ (
          if same_place entry.level entry.slot l s
          then put i entry (bucket w entry.level entry.slot)
          else bucket w l s)
  unfolding insert
  bucket-insert l s = bucket-set_bucket entry.level entry.slot _ w l s

  pub get-bucket-insert :
      (l : Level) (s j : ℕ)
      → get j (bucket (insert i d g w) l s) ≡ (
          if same_place entry.level entry.slot l s && (i == j)
          then some entry
          else get j (bucket w l s))
  get-bucket-insert l s j = elim (Bool-cases (same_place entry.level entry.slot l s)) [
    | inl e ↦
        let (p, q) = same_place-true entry.level entry.slot l s e in
        rw (bucket-insert l s, e, get-put, p, q)
    | inr e ↦ rw (bucket-insert l s, e)
  ]

  pub get-entries-insert :
      (j : ℕ) → get j (insert i d g w).entries ≡ (if i == j then some entry else get j w.entries)
  unfolding insert set_bucket
  get-entries-insert j = get-put i j entry w.entries

pub get-head :
    (i j : ℕ) (e : Entry) (rest : Bucket)
    → get j ((i, e) ∷ rest) ≡ (if i == j then some e else get j rest)
unfolding get
get-head i j e rest = refl
