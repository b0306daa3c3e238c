-- ===== src/Policy/Keys.antt =====
-- The keys of the ordered sets tell their elements apart.
use serctl.Policy.Defs.{
  fs_list, fs_read, process_inspect, fs_write_new, transfer_read, transfer_write, process_run, user,
  uid, posix, windows, capability_key, Capability, run_as_key, flavor_rank, path_key, RunAs,
  PathFlavor, NormalizedPath,
}
use serctl.Common.{refl, [], ℕ, Bytes, if◌then◌else◌, ◌∷◌, ◌≡◌, ◌==◌, sym, arith, ◌∙◌, ap}

-- the capability at a place of the declaration
nth_capability : ℕ → Capability
nth_capability n =
    if n == 0
    then fs_list
    else if n == 1
    then fs_read
    else if n == 2
    then process_inspect
    else if n == 3
    then fs_write_new
    else if n == 4
    then transfer_read
    else if n == 5
    then transfer_write
    else process_run

first_byte : Bytes → ℕ
first_byte [] = 0
first_byte (b ∷ s) = b

nth-capability_key : (c : Capability) → nth_capability (first_byte (capability_key c)) ≡ c
unfolding nth_capability first_byte capability_key
nth-capability_key fs_list = refl
nth-capability_key fs_read = refl
nth-capability_key process_inspect = refl
nth-capability_key fs_write_new = refl
nth-capability_key transfer_read = refl
nth-capability_key transfer_write = refl
nth-capability_key process_run = refl

pub capability_key-injective : (a b : Capability) → capability_key a ≡ capability_key b → a ≡ b
capability_key-injective a b h =
    sym (nth-capability_key a)
    ∙ ap (λ (k : Bytes). nth_capability (first_byte k)) h
    ∙ nth-capability_key b

pub run_as_key-injective : (a b : RunAs) → run_as_key a ≡ run_as_key b → a ≡ b
unfolding run_as_key
run_as_key-injective (user a) (user b) h = cc
run_as_key-injective (user a) (uid b) h = ground arith
run_as_key-injective (uid a) (user b) h = ground arith
run_as_key-injective (uid a) (uid b) h = cc

flavor_rank-injective : (a b : PathFlavor) → flavor_rank a ≡ flavor_rank b → a ≡ b
unfolding flavor_rank
flavor_rank-injective posix posix h = refl
flavor_rank-injective posix windows h = ground arith
flavor_rank-injective windows posix h = ground arith
flavor_rank-injective windows windows h = refl

pub path_key-injective : (a b : NormalizedPath) → path_key a ≡ path_key b → a ≡ b
unfolding path_key
path_key-injective a b h = ground (arith, flavor_rank-injective a.flavor b.flavor)
