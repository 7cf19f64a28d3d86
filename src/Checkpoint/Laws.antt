-- ===== src/Checkpoint/Laws.antt =====
-- The history as the last checkpoints that were pushed, and what a blob keeps.
use novium_emulator.Base.{
  ℕ, ◌+◌, ◌<◌, ltb, if◌then◌else◌, ap, ◌∙◌, ◌≡◌, refl, arith, some, List, [], ◌∷◌,
}
use novium_emulator.Base.Window.{
  push_all, last_of, push_all-last_of, push_bounded-append, pop_back-append, length-push_bounded,
}
use novium_emulator.Checkpoint.{
  Checkpoint, CheckpointManager, new_manager, set_max_history, size, add, pop, save_blob,
  restore_blob,
}

-- The checkpoints of a list, pushed in order.
unfoldable pub add_all : CheckpointManager → List Checkpoint → CheckpointManager
add_all c [] = c
add_all c (cp ∷ cps) = add_all (add c cp) cps

add_all-push_all :
    (c : CheckpointManager) (cps : List Checkpoint)
    → add_all c cps ≡ record c { history = push_all c.max_history c.history cps }
unfolding add_all add push_all
add_all-push_all c [] = refl
add_all-push_all c (cp ∷ cps) = add_all-push_all (add c cp) cps

-- The manager implements its specification: after any sequence of pushes on a new manager the
-- history is exactly the last `max_history` checkpoints of the sequence, oldest first.
pub history-last_of :
    (max_history : ℕ) (cps : List Checkpoint)
    → add_all (new_manager max_history) cps
      ≡ record { history = last_of max_history cps; max_history = max_history }
unfolding new_manager
history-last_of max_history cps =
    add_all-push_all (new_manager max_history) cps
    ∙ ap (λ (h : List Checkpoint). record { history = h; max_history = max_history })
        (push_all-last_of max_history cps)

-- With room in the history, stepping back after a push gives the checkpoint that was pushed and the
-- manager as it was before.
pub pop-add :
    (c : CheckpointManager) (cp : Checkpoint)
    → size c < c.max_history
    → pop (add c cp) ≡ some (cp, c)
unfolding size add pop
pop-add c cp room =
    rw (push_bounded-append c.max_history c.history cp room)
      (rw (pop_back-append c.history cp, pop) refl)

-- A push never shrinks the history: below the maximum it grows by one, and from there on it keeps
-- its size, also where the maximum was set lower in between.
pub size-add :
    (c : CheckpointManager) (cp : Checkpoint) (n : ℕ)
    → size (add (set_max_history c n) cp) ≡ (if ltb (size c) n then size c + 1 else size c)
unfolding size add set_max_history
size-add c cp n = length-push_bounded n c.history cp

-- A blob of its own size is accepted, and brings back the registers only: the rest of the
-- checkpoint that it is restored into is kept, whatever was saved.
pub restore_blob-save_blob :
    (regs_size csr_size : ℕ) (cp out : Checkpoint)
    → restore_blob regs_size (save_blob regs_size csr_size cp) out
      ≡ some (record out { regs = cp.regs })
unfolding save_blob restore_blob
restore_blob-save_blob regs_size csr_size cp out = ground arith
