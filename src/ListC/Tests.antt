-- ===== src/ListC/Tests.antt =====
-- The lists at concrete nodes.
use os_advanced_course.Base.{refl, [], ◌∷◌, arith}
use os_advanced_course.ListC.{Nodes, lst_init, lst_remove, lst_push}
use os_advanced_course.ListC.Ring.{IsRing, lst_init-IsRing, lst_push-IsRing, lst_remove-IsRing}

abbrev zero_nodes : Nodes
zero_nodes = record { next = λ a. 0; prev = λ a. 0 }

abbrev empty : Nodes
empty = lst_init 16 zero_nodes

abbrev pair : Nodes
pair = lst_push 16 32 (lst_push 16 48 empty)

empty-IsRing : IsRing empty 16 []
empty-IsRing = lst_init-IsRing zero_nodes 16

pair-IsRing : IsRing pair 16 (32 ∷ 48 ∷ [])
pair-IsRing =
    lst_push-IsRing (lst_push 16 48 empty) 16 32 (48 ∷ [])
      (lst_push-IsRing empty 16 48 [] empty-IsRing (omega arith) refl) (omega arith) refl

lst_remove-IsRing_example : IsRing (lst_remove 48 pair) 16 (32 ∷ [])
lst_remove-IsRing_example = lst_remove-IsRing pair 16 48 (32 ∷ []) [] pair-IsRing
