-- ===== src/Init/Seeds.antt =====
-- The list of seeds that `buildSeeds` writes, and the addresses that the pods have in it.
use yet_another_mysql_operat.Prelude.{
  ℕ, zero, suc, ◌<◌, ◌+◌, ◌≡◌, ◌≢◌, refl, [], some, arith, All, All-append, length, get_elem?,
}
use yet_another_mysql_operat.Prelude.Text.{Text, Lacks, split}
use yet_another_mysql_operat.Prelude.Text.Laws.{split-join}
use yet_another_mysql_operat.Prelude.Decimal.{ℤ, pos, negsuc, show_nat, show_int}
use yet_another_mysql_operat.Prelude.Decimal.RoundTrip.{show_nat-Lacks}
use yet_another_mysql_operat.Init.{seed, seed_hosts, build_seeds}

get-seed_hosts :
    (service fqdn : Text) (port : ℤ) (i n k : ℕ)
    → k < n
    → get_elem? (seed_hosts service fqdn port i n) k ≡ some (seed service fqdn port (i + k))
unfolding seed_hosts
get-seed_hosts service fqdn port i zero k h = absurd (omega (arith, h))
get-seed_hosts service fqdn port i (suc n) zero h = let e : i + 0 ≡ i = omega arith in rw e refl
get-seed_hosts service fqdn port i (suc n) (suc k) h =
    let e : i + suc k ≡ suc i + k = omega arith in
    rw e (get-seed_hosts service fqdn port (suc i) n k (omega (arith, h)))

length-seed_hosts :
    (service fqdn : Text) (port : ℤ) (i n : ℕ) → length (seed_hosts service fqdn port i n) ≡ n
unfolding seed_hosts
length-seed_hosts service fqdn port i zero = refl
length-seed_hosts service fqdn port i (suc n) =
    omega (arith, length-seed_hosts service fqdn port (suc i) n)

show_int-Lacks : (p : ℤ) → Lacks b',' (show_int p)
unfolding show_int
show_int-Lacks (pos n) = show_nat-Lacks b',' n (omega arith)
show_int-Lacks (negsuc n) = (omega arith, show_nat-Lacks b',' (suc n) (omega arith))

module _ (service fqdn : Text) (port : ℤ) (service_clean : Lacks b',' service)
    (fqdn_clean : Lacks b',' fqdn) where
  seed-Lacks : (i : ℕ) → Lacks b',' (seed service fqdn port i)
  unfolding seed
  seed-Lacks i = All-append _ service _ service_clean (
      (
        omega arith,
        All-append _ (show_nat i) _ (show_nat-Lacks b',' i (omega arith))
            ((omega arith, All-append _ fqdn _ fqdn_clean ((omega arith, show_int-Lacks port)))),
      ))

  seed_hosts-Lacks : (i n : ℕ) → All (Lacks b',') (seed_hosts service fqdn port i n)
  unfolding seed_hosts
  seed_hosts-Lacks i zero = tt
  seed_hosts-Lacks i (suc n) = (seed-Lacks i, seed_hosts-Lacks (suc i) n)

  seed_hosts-ne-nil : (i n : ℕ) → 0 < n → seed_hosts service fqdn port i n ≢ []
  unfolding seed_hosts
  seed_hosts-ne-nil i zero h = absurd (omega (arith, h))
  seed_hosts-ne-nil i (suc n) h = λ e. cc

  -- Split at its commas, the list of seeds for `n` replicas has `n` entries, and entry number `k` is the
  -- address of pod number `k`. The service and its domain have no comma, and there is a replica.
  pub split-build_seeds :
      (n : ℕ)
      → 0 < n
      → (length (split b',' (build_seeds service fqdn (pos n) port)) ≡ n)
        × ((k : ℕ)
            → k < n
            → get_elem? (split b',' (build_seeds service fqdn (pos n) port)) k
              ≡ some (seed service fqdn port k))
  unfolding build_seeds
  split-build_seeds n h =
      rw
        (split-join b',' (seed_hosts service fqdn port 0 n) (seed_hosts-ne-nil 0 n h)
          (seed_hosts-Lacks 0 n))
        (
          length-seed_hosts service fqdn port 0 n,
          λ k l.
              let e : 0 + k ≡ k = omega arith in rw e at (get-seed_hosts service fqdn port 0 n k l),
        )
