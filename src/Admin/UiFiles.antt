-- ===== src/Admin/UiFiles.antt =====
-- src/admin/static-ui-files.ts. A path of `resolve` is the list of its segments, and reading a file is
-- a parameter.
pub mod Inside
pub mod Segments
use notify_hub.Base.{
  ℕ, Bool, true, false, ◌&&◌, ◌||◌, not, Option, none, some, List, [], ◌∷◌, ◌++◌, Text, lit, ◌==◌,
  is_empty, split, starts_with, if◌then◌else◌,
}
use notify_hub.Base.Map.{Map, lookup}
use notify_hub.Ports.{Outcome, ok, raise}

abbrev content_types : Map Text
content_types =
    (lit ".html", lit "text/html; charset=utf-8")
    ∷ (lit ".css", lit "text/css; charset=utf-8")
    ∷ (lit ".js", lit "application/javascript; charset=utf-8")
    ∷ (lit ".json", lit "application/json; charset=utf-8")
    ∷ (lit ".svg", lit "image/svg+xml")
    ∷ (lit ".png", lit "image/png")
    ∷ (lit ".ico", lit "image/x-icon")
    ∷ []

-- All but the last, for a step to the parent.
unfoldable pub parent : List Text → List Text
parent [] = []
parent (s ∷ []) = []
parent (s ∷ t ∷ rest) = s ∷ parent (t ∷ rest)

-- One segment of a path that is resolved.
unfoldable pub enter : List Text → Text → List Text
unfolding parent is_empty ◌==◌
enter at segment =
    if is_empty segment || segment == lit "."
    then at
    else if segment == lit ".."
    then parent at
    else at ++ segment ∷ []

unfoldable pub enter_all : List Text → List Text → List Text
unfolding enter
enter_all at [] = at
enter_all at (segment ∷ segments) = enter_all (enter at segment) segments

-- `resolve(root, relative)` of node:path on POSIX, where a path from `/` forgets the root.
unfoldable pub resolve : List Text → Text → List Text
unfolding enter_all split starts_with
resolve root relative =
    enter_all (if starts_with relative (lit "/") then [] else root) (split relative (lit "/"))

-- Each segment after a slash.
unfoldable pub slashed : List Text → Text
slashed [] = []
slashed (s ∷ segments) = 47 ∷ (s ++ slashed segments)

unfoldable pub path_text : List Text → Text
unfolding slashed
path_text [] = lit "/"
path_text (s ∷ segments) = slashed (s ∷ segments)

-- `filePath === root || filePath.startsWith(root + sep)`
unfoldable pub is_inside : List Text → List Text → Bool
unfolding path_text starts_with ◌==◌
is_inside root file =
    path_text file == path_text root || starts_with (path_text file) (path_text root ++ lit "/")

pub data UiReply : Type 0 where
  forbidden : UiReply
  missing : UiReply
  served_file : (content_type content : Text) → UiReply

type_or_default : Option Text → Text
type_or_default none = lit "application/octet-stream"
type_or_default (some type) = type

unfoldable pub relative_of : Text → Text
unfolding is_empty
relative_of requested = if is_empty requested then lit "admin.html" else requested

unfoldable pub file_reply : (Text → Text) → Text → Outcome Text → UiReply
unfolding type_or_default lookup
file_reply extension path (raise e) = missing
file_reply extension path (ok content) =
    served_file (type_or_default (lookup content_types (extension path))) content

-- `GET /*` after the root: `extension` is `extname`, and `read_file` the contents of a path.
unfoldable pub get_ui_file : (Text → Text) → (Text → Outcome Text) → List Text → Text → UiReply
unfolding relative_of resolve is_inside file_reply path_text
get_ui_file extension read_file root requested =
    let file = resolve root (relative_of requested) in
    if not (is_inside root file)
    then forbidden
    else file_reply extension (path_text file) (read_file (path_text file))
