-- ===== src/Http/Inside.antt =====
-- `serveStatic`: which files are sent.
use pdatahub.Http.Paths.{includes}
use pdatahub.Http.Static.{
  FileSystem, File, served, resolve_safe_path, is_spa_route, serve_target, serve_static, send_file,
}
use pdatahub.Prelude.{
  String, some, true, false, inl, inr, ◌≡◌, Bool, ◌⊎◌, arith, starts_with, str_append, Bool-cases,
  sym, str_eq, ◌∙◌, eq_iff, refl, Option-cases,
}

-- The path has no `..` in it, and the file is the directory of the UI or lies in it.
abbrev pub Within : FileSystem → String → String → String → Type 0
Within fs web_root pathname target =
    (includes pathname ".." ≡ false)
    × ((target ≡ fs.resolve_root web_root)
        ⊎ (starts_with target (str_append (fs.resolve_root web_root) fs.sep) ≡ true))

-- A file that is sent: it exists and is a file; and it is the page of the UI, or the path has no `..` in it
-- and the file lies in the directory of the UI.
pub record IsInside (fs : FileSystem) (web_root pathname : String) (file : File) : Type 0 where
  pub present : (fs.exists file.target ≡ true) × (fs.is_file file.target ≡ true)
  pub same : file.content ≡ fs.read file.target
  pub within :
      (file.target ≡ fs.join web_root "index.html") ⊎ Within fs web_root pathname file.target

module _ (fs : FileSystem) (web_root pathname : String) where
  -- The path of a file that is sent is in the directory.
  resolve_safe_path-within :
      {path : String}
      → resolve_safe_path fs web_root pathname ≡ some path
      → (includes pathname ".." ≡ false)
        × ((path ≡ fs.resolve_root web_root)
            ⊎ (starts_with path (str_append (fs.resolve_root web_root) fs.sep) ≡ true))
  unfolding resolve_safe_path
  resolve_safe_path-within {path} h =
      let root = fs.resolve_root web_root in
      let candidate = fs.resolve root (str_append "." pathname) in
      let same : candidate ≡ path = ground arith in
      (
        ground arith,
        elim (Bool-cases (str_eq candidate root)) [
          | inl e ↦ inl (sym same ∙ (eq_iff candidate root).0 e)
          | inr e ↦ inr (ground (arith, e, same))
        ],
      )

  serve_target-file :
      (is_spa : Bool) (target : String) {file : File}
      → serve_target fs is_spa target ≡ served file
      → (fs.exists target ≡ true)
        × (fs.is_file target ≡ true)
        × (file.target ≡ target)
        × (file.content ≡ fs.read target)
  unfolding serve_target send_file
  serve_target-file is_spa target h = (ground arith, ground arith, ground arith, ground arith)

  file-IsInside :
      (is_spa : Bool) (target : String) {file : File}
      → serve_target fs is_spa target ≡ served file
      → (target ≡ fs.join web_root "index.html") ⊎ Within fs web_root pathname target
      → IsInside fs web_root pathname file
  file-IsInside is_spa target h w =
      let (exists, is_file, same, content) = serve_target-file is_spa target h in
      record {
        present = (rw same exists, rw same is_file);
        same = rw same content;
        within = rw same w;
      }

  -- A file that the UI sends exists and is a file, and its content is what is sent. It is the page of the
  -- UI, or the request's path has no `..` in it and the file is in the directory of the UI.
  pub serve_static-IsInside :
      (file : File)
      → serve_static fs web_root pathname ≡ served file
      → IsInside fs web_root pathname file
  unfolding serve_static
  serve_static-IsInside file h = elim (Option-cases (resolve_safe_path fs web_root pathname)) [
    | inl e ↦ absurd (ground (arith, e))
    | inr (path, e) ↦ elim (Bool-cases (is_spa_route fs pathname)) [
      | inl spa ↦
          file-IsInside true (fs.join web_root "index.html") (ground (arith, e, spa)) (inl refl)
      | inr plain ↦
          file-IsInside false path (ground (arith, e, plain)) (inr (resolve_safe_path-within e))
    ]
  ]
