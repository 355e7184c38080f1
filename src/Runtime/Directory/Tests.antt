-- ===== src/Runtime/Directory/Tests.antt =====
-- Runs of the directory.
use boardwalk.Common.{ℕ, [], codes, find, put, ◌=s◌, err, ◌>>=◌, ◌≡◌, refl}
use boardwalk.Runtime.Directory.{internal, ResourceDirectory, contains_id, insert}
use boardwalk.Runtime.Directory.Laws.{IsIndexed, Inserted, insert-Inserted}

abbrev empty : ResourceDirectory ℕ
empty = record { entries = []; by_id = [] }

empty-IsIndexed : IsIndexed empty
unfolding find
empty-IsIndexed id i h = cc

insert-Inserted_example :
    Inserted empty (codes "a") (codes "lamp") 7 (insert empty (codes "a") (codes "lamp") 7)
insert-Inserted_example = insert-Inserted empty (codes "a") (codes "lamp") 7 empty-IsIndexed

twice_test :
    (insert empty (codes "a") (codes "lamp") 7 >>= λ d. insert d (codes "a") (codes "door") 8)
    ≡ err (internal (codes "duplicate resource id: a"))
unfolding insert contains_id find put ◌=s◌
twice_test = refl
