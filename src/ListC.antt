-- ===== src/ListC.antt =====
-- The circular doubly linked lists of xv6-os/kernel/list.c. The fields of the `struct list` at each
-- address are two functions; structures at different addresses do not overlap.
pub mod Ring
mod Tests
use os_advanced_course.Base.{
  ℕ, Bool, ◌==◌, if◌then◌else◌, update, Run, ok, panic, Cmd, gets, modify, panicking, pure, ◌>>=◌,
  ◌>>◌,
}

pub record Nodes : Type 0 where
  pub next : ℕ → ℕ
  pub prev : ℕ → ℕ

abbrev pub set_next : ℕ → ℕ → Nodes → Nodes
set_next a v m = record m { next = update m.next a v }

abbrev pub set_prev : ℕ → ℕ → Nodes → Nodes
set_prev a v m = record m { prev = update m.prev a v }

pub lst_init : ℕ → Nodes → Nodes
lst_init lst m = set_prev lst lst (set_next lst lst m)

pub lst_empty : ℕ → Nodes → Bool
lst_empty lst m = m.next lst == lst

unfoldable pub lst_remove : ℕ → Nodes → Nodes
lst_remove e m = let m' = set_next (m.prev e) (m.next e) m in set_prev (m'.next e) (m'.prev e) m'

pub lst_pop : ℕ → Cmd Nodes ℕ
unfolding lst_remove
lst_pop lst = do
  empty ← gets (λ m. m.next lst == lst)
  if empty then panicking else pure tt
  p ← gets (λ m. m.next lst)
  modify (lst_remove p)
  pure p

-- Each store reads the fields as the stores before it have left them.
unfoldable pub lst_push : ℕ → ℕ → Nodes → Nodes
lst_push lst p m =
    let m1 = set_next p (m.next lst) m in
    let m2 = set_prev p lst m1 in let m3 = set_prev (m2.next lst) p m2 in set_next lst p m3
