-- ===== src/Automation/Marker.antt =====
-- What a request does to the marker.
use limine_manager.Prelude.{
  ℕ, ◌≡◌, Bool, true, false, Option, none, some, [], ◌∷◌, ◌++◌, take, Text, text, newline, ok,
  Error, runtime_error,
}
use limine_manager.Decimal.{to_string}
use limine_manager.FilePath.{FilePath}
use limine_manager.Exec.{Exec}
use limine_manager.Automation.{RefreshRequest, marker_of, Markers, pending}

abbrev pub text_of : Option Text → Text
text_of none = []
text_of (some t) = t

abbrev pub line_of : ℕ → Text → Text
line_of now source = to_string now ++ (text " " ++ (source ++ (newline ∷ [])))

-- opening makes an empty file where there is none
abbrev pub opened_file : Bool → Option Text → Option Text
opened_file false before = before
opened_file true before = some (text_of before)

abbrev pub holds_file : Option Text → Bool
holds_file none = false
holds_file (some t) = true

-- What the standard library says of these calls. A write may stop early, on a full disk say.
pub record IsLawful (c : Markers) : Type 0 where
  pub create-content :
      (d p : FilePath) (w : Markers.World c)
      → c.content (c.create_directories d w).1 p ≡ c.content w p
  pub exists-content :
      (p q : FilePath) (w : Markers.World c) → c.content (c.exists p w).1 q ≡ c.content w q
  pub exists-sees :
      (p : FilePath) (w : Markers.World c) {b : Bool}
      → (c.exists p w).0 ≡ ok b
      → b ≡ holds_file (c.content w p)
  pub open-content :
      (p : FilePath) (w : Markers.World c)
      → c.content (c.open_append p w).1 p ≡ opened_file (c.open_append p w).0 (c.content w p)
  pub write-content :
      (p : FilePath) (line old : Text) (w : Markers.World c)
      → c.content w p ≡ some old
      → (n : ℕ) × (c.content (c.write_close p line w) p ≡ some (old ++ take n line))

module _ (c : Markers) (lawful : IsLawful c) where
  open c use {World, content}

  -- the marker has more of a line, and the answer says whether it was there before
  pub record Requested (directory : FilePath) (now : ℕ) (source : Text) (w : World)
      (r : RefreshRequest) (after : World) : Type 0 where
    pub written : ℕ
    pub line_added :
        content after (marker_of directory)
        ≡ some (text_of (content w (marker_of directory)) ++ take written (line_of now source))
    pub coalesced : r.coalesced ≡ holds_file (content w (marker_of directory))
    pub found : (b : Bool) → (pending c directory after).0 ≡ ok b → b ≡ true

  abbrev pub Unrequested : FilePath → World → World → Type 0
  Unrequested directory w after =
      content after (marker_of directory) ≡ content w (marker_of directory)

  abbrev missing : FilePath → Error
  missing directory =
      runtime_error (text "cannot create refresh pending marker: " ++ marker_of directory)
