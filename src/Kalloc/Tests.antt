-- ===== src/Kalloc/Tests.antt =====
-- Two pages, freed and allocated.
use cs.Base.{ℕ, ◌≡◌, refl, true, false, update, ok}
use cs.Kalloc.{Kmem, kalloc, kfree, junk}
use cs.Kalloc.Owners.{Reach, begins, frees, IsFreePage, Reach-kalloc}

abbrev empty : Kmem
empty = record { freelist = 0; mem = λ a. 0 }

abbrev page : ℕ
page = 2148532224

abbrev one_page : Kmem
one_page = record { freelist = page; mem = update (junk 1024 page (λ a. 0)) page 0 }

freed : kfree 2148000000 page empty ≡ ok one_page
unfolding kfree
freed = refl

one_page-Reach : Reach 2148000000 one_page (update (λ p. true) page false)
one_page-Reach = frees page begins refl freed

Reach-kalloc_example : IsFreePage (update (λ p. true) page false) (kalloc one_page).1
Reach-kalloc_example = Reach-kalloc one_page-Reach
