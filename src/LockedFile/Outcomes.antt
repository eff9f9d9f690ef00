-- ===== src/LockedFile/Outcomes.antt =====
-- `LockedFile.open`, on each of its ways out.
use kanta.Base.{◌≡◌, refl, false, if-cases, Bool, true, not, ◌&&◌, ◌||◌, if-holds}
use kanta.LockedFile.{File, open_file}

-- opening changes no content
pub open_file-holds {ℓ} :
    (P : File × Bool → Type ℓ) (self : File) (create readonly lock_free : Bool)
    → ((is_open exists locked : Bool)
        → P (record self { is_open = is_open; exists = exists }, locked))
    → P (open_file self create readonly lock_free)
unfolding open_file
open_file-holds P self create readonly lock_free h =
    if-holds P self.is_open (h self.is_open self.exists true) (
      if-holds P (not self.exists && (readonly || not create)) (h _ _ _)
        (if-holds P (readonly || lock_free) (h _ _ _) (h _ _ _)))

-- a file that was closed is open where the lock is granted
pub open_file-is_open :
    (self : File) (create readonly lock_free : Bool)
    → self.is_open ≡ false
    → (open_file self create readonly lock_free).0.is_open
      ≡ (open_file self create readonly lock_free).1
unfolding open_file
open_file-is_open self create readonly lock_free h =
    let P = λ (r : File × Bool). r.0.is_open ≡ r.1 in
    if-cases P self.is_open (λ e. e)
      (λ closed.
        if-holds P (not self.exists && (readonly || not create)) closed
          (if-holds P (readonly || lock_free) refl closed))
