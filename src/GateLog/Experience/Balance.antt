-- ===== src/GateLog/Experience/Balance.antt =====
-- The histograms of a user lose no request.
use lss.Base.{
  ℕ, zero, suc, ◌+◌, ◌≡◌, refl, ◌∙◌, inl, inr, ◌⊎◌, Option, none, some, List, [], ◌∷◌, arith, ◌==◌,
  Bool-cases, length, ◌&&◌, ==_iff,
}
use lss.Base.Float.{F64}
use lss.GateLog.Experience.{
  resize, total, UserExp, no_exp, exp_ttfb_ms, exp_tok_s, bump, bucket_add, add_speed, add_exp,
  grow_add, merge_exp,
}

total-resize : (n : ℕ) → total (resize n []) ≡ 0
unfolding total resize
total-resize zero = refl
total-resize (suc n) = omega (arith, total-resize n)

length-resize : (n : ℕ) (counts : List ℕ) → length (resize n counts) ≡ n
unfolding resize
length-resize zero counts = omega arith
length-resize (suc n) [] = omega (arith, length-resize n [])
length-resize (suc n) (c ∷ counts) = omega (arith, length-resize n counts)

module _ (F : F64) where
  total-bump :
      (edges : List F.Float) (counts : List ℕ) (v : F.Float)
      → length counts ≡ length edges + 1
      → total (bump F edges counts v) ≡ total counts + 1
  unfolding total bump
  total-bump edges [] v e = absurd (omega arith)
  total-bump [] (c ∷ counts) v e = omega arith
  total-bump (edge ∷ edges) (c ∷ counts) v e = ground (arith, total-bump edges counts v)

  length-bump :
      (edges : List F.Float) (counts : List ℕ) (v : F.Float)
      → length (bump F edges counts v) ≡ length counts
  unfolding bump
  length-bump edges [] v = refl
  length-bump [] (c ∷ counts) v = refl
  length-bump (edge ∷ edges) (c ∷ counts) v = ground (arith, length-bump edges counts v)

  -- no bucket yet, or all of them
  abbrev pub Shaped : List F.Float → List ℕ → Type 0
  Shaped edges counts = (counts ≡ []) ⊎ (length counts ≡ length edges + 1)

  bucket_add-lem :
      (edges : List F.Float) (counts : List ℕ) (v : F.Float)
      → Shaped edges counts
      → (total (bucket_add F counts edges v) ≡ total counts + 1)
        × (length (bucket_add F counts edges v) ≡ length edges + 1)
  unfolding bucket_add total
  bucket_add-lem edges counts v (inl e) =
      let n = length edges + 1 in
      rw e (elim (Bool-cases (0 == length edges + 1)) [
        | inl f ↦ absurd (ground arith)
        | inr f ↦ rw f (
          omega (arith, total-bump edges (resize n []) v (length-resize n []), total-resize n),
          length-bump edges (resize n []) v ∙ length-resize n [],
        )
      ])
  bucket_add-lem edges counts v (inr e) =
      rw ((==_iff _ _).1 e) (total-bump edges counts v e, length-bump edges counts v ∙ e)

  -- what add and merge build
  pub data Built : UserExp F → Type 0 where
    fresh : Built (no_exp F)
    added :
        (e : UserExp F) (ttfb_ms : F.Float) (dur_ms tokens : Option F.Float)
        → Built e
        → Built (add_exp F e ttfb_ms dur_ms tokens)
    merged : (e o : UserExp F) → Built e → Built o → Built (merge_exp F e o)

  pub record IsBalanced (e : UserExp F) : Type 0 where
    pub ttfb : total e.ttfb ≡ e.n
    pub speed : total e.speed ≡ e.speed_n
    pub ttfb_shape : Shaped (exp_ttfb_ms F) e.ttfb
    pub speed_shape : Shaped (exp_tok_s F) e.speed

  fresh-IsBalanced : IsBalanced (no_exp F)
  unfolding total
  fresh-IsBalanced = record {
    ttfb = refl;
    speed = refl;
    ttfb_shape = inl refl;
    speed_shape = inl refl;
  }

  add_speed-IsBalanced :
      (e : UserExp F) (ttfb_ms : F.Float) (dur_ms tokens : Option F.Float)
      → IsBalanced e
      → IsBalanced (add_speed F e ttfb_ms dur_ms tokens)
  unfolding add_speed
  add_speed-IsBalanced e t none tokens v = v
  add_speed-IsBalanced e t (some dur) none v = v
  add_speed-IsBalanced e t (some dur) (some tokens) v =
      let write_ms = F.minus dur t in
      let rate = F.over tokens (F.over write_ms (F.ratio 1000 1)) in
      let l = bucket_add-lem (exp_tok_s F) e.speed rate v.speed_shape in
      elim (Bool-cases (F.le (F.ratio 16 1) tokens && F.le (F.ratio 200 1) write_ms)) [
        | inl f ↦ rw f record {
          ttfb = v.ttfb;
          speed = omega (arith, l.0, v.speed);
          ttfb_shape = v.ttfb_shape;
          speed_shape = inr l.1;
        }
        | inr f ↦ rw f v
      ]

  add_exp-IsBalanced :
      (e : UserExp F) (ttfb_ms : F.Float) (dur_ms tokens : Option F.Float)
      → IsBalanced e
      → IsBalanced (add_exp F e ttfb_ms dur_ms tokens)
  unfolding add_exp
  add_exp-IsBalanced e t dur_ms tokens v =
      let l = bucket_add-lem (exp_ttfb_ms F) e.ttfb t v.ttfb_shape in
      add_speed-IsBalanced record e { n = e.n + 1; ttfb = bucket_add F e.ttfb (exp_ttfb_ms F) t } t
        dur_ms tokens
        record {
          ttfb = omega (arith, l.0, v.ttfb);
          speed = v.speed;
          ttfb_shape = inr l.1;
          speed_shape = v.speed_shape;
        }

  total-grow_add :
      (mine theirs : List ℕ) → total (grow_add F mine theirs) ≡ total mine + total theirs
  unfolding total grow_add
  total-grow_add mine [] = omega arith
  total-grow_add [] (t ∷ theirs) = omega (arith, total-grow_add [] theirs)
  total-grow_add (m ∷ mine) (t ∷ theirs) = omega (arith, total-grow_add mine theirs)

  grow_add-nil : (theirs : List ℕ) → grow_add F [] theirs ≡ theirs
  unfolding grow_add
  grow_add-nil [] = refl
  grow_add-nil (t ∷ theirs) = ground (arith, grow_add-nil theirs)

  length-grow_add :
      (n : ℕ) (mine theirs : List ℕ)
      → length mine ≡ n
      → length theirs ≡ n
      → length (grow_add F mine theirs) ≡ n
  unfolding grow_add
  length-grow_add n mine [] e f = e
  length-grow_add n [] (t ∷ theirs) e f = absurd (omega arith)
  length-grow_add zero (m ∷ mine) (t ∷ theirs) e f = absurd (omega arith)
  length-grow_add (suc n) (m ∷ mine) (t ∷ theirs) e f =
      omega (arith, length-grow_add n mine theirs (omega arith) (omega arith))

  grow_add-Shaped :
      (edges : List F.Float) (mine theirs : List ℕ)
      → Shaped edges mine
      → Shaped edges theirs
      → Shaped edges (grow_add F mine theirs)
  unfolding grow_add
  grow_add-Shaped edges mine theirs (inl e) t = rw (e, grow_add-nil theirs) t
  grow_add-Shaped edges mine theirs (inr e) (inl f) = rw f (inr e)
  grow_add-Shaped edges mine theirs (inr e) (inr f) =
      inr (length-grow_add (length edges + 1) mine theirs e f)

  merge_exp-IsBalanced :
      (e o : UserExp F) → IsBalanced e → IsBalanced o → IsBalanced (merge_exp F e o)
  unfolding merge_exp
  merge_exp-IsBalanced e o v w = record {
    ttfb = omega (arith, total-grow_add e.ttfb o.ttfb, v.ttfb, w.ttfb);
    speed = omega (arith, total-grow_add e.speed o.speed, v.speed, w.speed);
    ttfb_shape = grow_add-Shaped (exp_ttfb_ms F) e.ttfb o.ttfb v.ttfb_shape w.ttfb_shape;
    speed_shape = grow_add-Shaped (exp_tok_s F) e.speed o.speed v.speed_shape w.speed_shape;
  }

  -- However the experience of a user is added to and merged, its buckets of first-word times add up
  -- to its number of requests and its buckets of speeds to the number that have a speed; a list of
  -- buckets is empty or has one for each edge and an open one.
  pub Built-IsBalanced : {e : UserExp F} → Built e → IsBalanced e
  Built-IsBalanced fresh = fresh-IsBalanced
  Built-IsBalanced (added e t dur_ms tokens b) =
      add_exp-IsBalanced e t dur_ms tokens (Built-IsBalanced b)
  Built-IsBalanced (merged e o b c) =
      merge_exp-IsBalanced e o (Built-IsBalanced b) (Built-IsBalanced c)
