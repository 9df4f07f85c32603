-- ===== src/Programs/Outcome.antt =====
-- When the programs succeed, and what they say when they do not.
use gitlab_shell.Prelude.{Bytes, codes, ◌≡◌, ◌⊎◌, none, [], ◌∷◌}
use gitlab_shell.Errors.{ok}
use gitlab_shell.Programs.{returned, panicked, World, Exit}

-- The program was asked for its version.
abbrev pub IsVersionCall : World → Type 0
IsVersionCall w = (program : Bytes) × (w.args ≡ program ∷ codes "-version" ∷ [])

-- A program comes to the run of a command.
abbrev pub Comes : (w : World) → w.Command → Type 0
Comes w command =
    (root : Bytes) × (config : w.Config) × (w.root_dir ≡ ok root)
    × (w.new_from_dir_external root ≡ ok config)
    × (w.new_command config ≡ ok command)

-- The run of a command that does not fail, and what it writes to standard error.
abbrev pub Succeeds : World → Bytes → Type 0
Succeeds w written =
    (command : w.Command) × Comes w command × (w.execute command ≡ returned written none)

abbrev pub Panics : World → Type 0
Panics w =
    (command : w.Command) × (written : Bytes) × Comes w command
    × (w.execute command ≡ panicked written)

-- How a program ends: status 0 for a call for the version, with nothing on standard error, and for a
-- command that succeeds, with what that wrote there; status 2 for a command that panics; status 1
-- otherwise.
abbrev pub Exits : World → Exit → Type 0
Exits w e =
    (IsVersionCall w × (e.status ≡ 0) × (e.err_out ≡ []))
    ⊎ ((¬ IsVersionCall w)
        × (((written : Bytes) × Succeeds w written × (e.status ≡ 0) × (e.err_out ≡ written))
            ⊎ (Panics w × (e.status ≡ 2))
            ⊎ ((¬ ((written : Bytes) × Succeeds w written)) × (¬ Panics w) × (e.status ≡ 1))))

module _ (w : World) where
  -- Where the steps before a command fail, no command is run.
  abbrev Stops : Type 0
  Stops = (command : w.Command) → ¬ Comes w command
