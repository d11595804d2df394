-- ===== src/Host/Image/Checksum.antt =====
-- The checksum of a file is the hash of its whole contents, whatever its size.
use sonic_host_services.Base.{
  ℕ, zero, suc, true, some, [], ◌∷◌, ◌++◌, ◌≡◌, ◌≤◌, ◌<◌, refl, ◌∙◌, ap, sym, arith, length, take,
  drop,
}
use sonic_host_services.Base.Text.{Text}
use sonic_host_services.Host.Image.{or_unread, Hash, feed, checksum, digest}

take-drop : (n : ℕ) (xs : Text) → take n xs ++ drop n xs ≡ xs
take-drop zero xs = refl
take-drop (suc n) [] = refl
take-drop (suc n) (x ∷ xs) = ap (λ t. x ∷ t) (take-drop n xs)

length-drop : (n : ℕ) (xs : Text) → length (drop n xs) ≤ length xs
length-drop zero xs = omega arith
length-drop (suc n) [] = omega arith
length-drop (suc n) (x ∷ xs) = omega (arith, length-drop n xs)

module _ (hash : Hash) (update-nil : (s : hash.State) → hash.update s [] ≡ s)
    (update-append : (s : hash.State) (a b : Text)
      → hash.update (hash.update s a) b ≡ hash.update s (a ++ b)) where
  feed-whole :
      (fuel : ℕ) (s : hash.State) (contents : Text)
      → length contents < fuel
      → feed hash fuel s contents ≡ some (hash.update s contents)
  unfolding feed
  feed-whole zero s contents less = ground arith
  feed-whole (suc fuel) s [] less = ap some (sym (update-nil s))
  feed-whole (suc fuel) s (c ∷ contents) less =
      let chunk = take 4096 (c ∷ contents) in
      let rest = drop 4096 (c ∷ contents) in
      let shorter : length rest < fuel = omega (arith, length-drop 4095 contents) in
      feed-whole fuel (hash.update s chunk) rest shorter
      ∙ ap some (update-append s chunk rest ∙ ap (hash.update s) (take-drop 4096 (c ∷ contents)))

  -- For a hash that can be fed in parts, the checksum of a file that can be read is the digest of
  -- its whole contents: the loop over its chunks ends.
  pub checksum-whole :
      (contents : Text)
      → checksum (some contents) (some hash) true
        ≡ (0, digest (hash.hexdigest (hash.update hash.start contents)))
  checksum-whole contents =
      ap (or_unread hash) (feed-whole (suc (length contents)) hash.start contents (omega arith))
