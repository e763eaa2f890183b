-- ===== src/Process/Group.antt =====
-- process/ProcessGroup.cpp. A group is named by its id, and a group that was deleted is none.
use upanix_os.Base.{ℕ, ◌+◌, Bool, false, none, some, List, [], ◌∷◌, ◌==◌, if◌then◌else◌}
use upanix_os.Base.Int.{pos, ◌+ℤ◌, ◌-ℤ◌}
use upanix_os.Process.State.{Group, System, set_at, ◌==ℤ◌}

unfoldable pub remove {ℓ} : {A : Type ℓ} → (A → Bool) → List A → List A
remove f [] = []
remove f (x ∷ xs) = if f x then remove f xs else x ∷ remove f xs

-- The constructor; a foreground group becomes the one in front.
unfoldable pub new_group : Bool → System → ℕ × System
unfolding set_at
new_group is_fg s =
    let id = s.id_seq + 1 in
    (
      id,
      record s {
        id_seq = id;
        groups =
            set_at s.groups id
              (some (record { id = id; process_count = pos 0; fg_process_list = [] }));
        fg_process_group = if is_fg then some id else s.fg_process_group;
      },
    )

unfoldable pub put_on_fg_process_list : ℕ → Group → Group
put_on_fg_process_list pid g = record g { fg_process_list = pid ∷ g.fg_process_list }

unfoldable pub remove_from_fg_process_list : ℕ → Group → Group
unfolding remove
remove_from_fg_process_list pid g = record g {
  fg_process_list = remove (λ q. q == pid) g.fg_process_list;
}

unfoldable pub add_process : Group → Group
unfolding ◌+ℤ◌
add_process g = record g { process_count = g.process_count +ℤ pos 1 }

unfoldable pub remove_process : Group → Group
unfolding ◌-ℤ◌
remove_process g = record g { process_count = g.process_count -ℤ pos 1 }

-- A member function is called on the group with this id.
unfoldable pub on_group : ℕ → (Group → Group) → System → System
unfolding set_at
on_group g f s = elim (s.groups g) [
  | none ↦ s
  | some a ↦ record s { groups = set_at s.groups g (some (f a)) }
]

unfoldable pub switch_to_fg : Group → System → System
switch_to_fg g s = record s { fg_process_group = some g.id }

unfoldable pub is_fg_process_group : Group → System → Bool
is_fg_process_group g s = elim s.fg_process_group [ none ↦ false | some f ↦ f == g.id ]

unfoldable pub is_fg_process : ℕ → Group → Bool
is_fg_process pid g = elim g.fg_process_list [ [] ↦ false | q ∷ _ ↦ q == pid ]

-- The end of SchedulableProcess::Destroy: the process leaves its group, which is deleted when it was the last.
unfoldable pub leave_group : ℕ → ℕ → System → System
unfolding set_at remove_process remove_from_fg_process_list
leave_group pid g s = elim (s.groups g) [
  | none ↦ s
  | some a ↦
      let left = remove_process (remove_from_fg_process_list pid a) in
      record s {
        groups = set_at s.groups g (if left.process_count ==ℤ pos 0 then none else some left);
      }
]
