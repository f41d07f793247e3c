-- ===== src/Integrity/Digest.antt =====
-- On `sha256_file` of asphallea/integrity.py: the loop over chunks.
use asphallea.Prelude.{
  refl, ◌≤◌, List, String, [], ap, arith, drop, length, length-drop, suc, sym, take,
  take-append-drop, zero, ℕ, ◌+◌, ◌<◌, ◌≡◌, ◌∙◌, ◌∷◌, ◌++◌,
}
use asphallea.Integrity.{chunk, feed, Files, Hasher, sha256_file}
use asphallea.Errors.{ok}

-- What `hashlib` documents: updates with two pieces are one update with both, and no bytes change nothing.
pub record IsIncremental (H : Hasher) : Type 0 where
  pub update-append : (h : H.State) (a b : List ℕ) → H.update (H.update h a) b ≡ H.update h (a ++ b)
  pub update-nil : (h : H.State) → H.update h [] ≡ h

module _ (H : Hasher) (inc : IsIncremental H) where
  feed_lem :
      (fuel : ℕ) (bytes : List ℕ) (h : H.State)
      → length bytes < fuel
      → feed H fuel bytes h ≡ H.update h bytes
  unfolding feed
  feed_lem zero bytes h lt = absurd (omega arith)
  feed_lem (suc fuel) [] h lt = sym (inc.update-nil h)
  feed_lem (suc fuel) (b ∷ bytes) h lt =
      feed_lem fuel (drop chunk (b ∷ bytes)) (H.update h (take chunk (b ∷ bytes)))
        (omega (arith, length-drop chunk (b ∷ bytes)))
      ∙ inc.update-append h (take chunk (b ∷ bytes)) (drop chunk (b ∷ bytes))
      ∙ ap (H.update h) (take-append-drop chunk (b ∷ bytes))

  -- Of a file that can be read, the loop ends and the result is the digest of all its bytes at once.
  pub sha256_file_lem :
      (files : Files) (path : String) {bytes : List ℕ}
      → files path ≡ ok bytes
      → sha256_file H files path ≡ ok (H.hexdigest (H.update H.init bytes))
  unfolding sha256_file
  sha256_file_lem files path {bytes} readable =
      ground (arith, feed_lem (length bytes + 1) bytes H.init (omega arith))

-- The loop over the chunks of a file ends: however many rounds beyond the number of its bytes it is given,
-- it stops by itself in the same state.
pub feed_enough :
    (H : Hasher) (fuel more : ℕ) (bytes : List ℕ) (h : H.State)
    → length bytes < fuel
    → fuel ≤ more
    → feed H more bytes h ≡ feed H fuel bytes h
unfolding feed
feed_enough H zero more bytes h enough larger = absurd (omega arith)
feed_enough H (suc fuel) zero bytes h enough larger = absurd (omega arith)
feed_enough H (suc fuel) (suc more) [] h enough larger = refl
feed_enough H (suc fuel) (suc more) (b ∷ bytes) h enough larger =
    feed_enough H fuel more (drop chunk (b ∷ bytes)) (H.update h (take chunk (b ∷ bytes)))
      (omega (arith, length-drop chunk (b ∷ bytes))) (omega arith)
