-- ===== src/Web/Pages.antt =====
-- Where a visitor of the console ends up.
use easy_docker_proxy.Base.{
  ◌≡◌, refl, Bool, true, false, Option, none, some, if◌then◌else◌, Str, codes, is_empty, str_eq,
  ◌||◌,
}
use easy_docker_proxy.Web.{
  Page, page, redirect, not_found, index, index_path, file_name, clean, ext, content_type,
  found_page, in_directory, serve_page,
}

-- A page, nothing, or a redirect that leads to a page.
abbrev pub Settles : (Str → Option Str) → Page → Type 0
Settles files (page kind text) = Unit
Settles files not_found = Unit
Settles files (redirect path) =
    (text : Str) × (serve_page files path ≡ page (codes "text/html; charset=utf-8") text)

home :
    (files : Str → Option Str) (text : Str)
    → files index ≡ some text
    → serve_page files index_path ≡ page (codes "text/html; charset=utf-8") text
unfolding serve_page file_name clean content_type
home files text e = rw e refl

-- No path makes a browser go round: where the console's home page is among the files, a request is
-- answered with a file, with 404, or with a redirect to a path that is answered with the home page.
pub serve_page-Settles :
    (files : Str → Option Str) (path text : Str)
    → files index ≡ some text
    → Settles files (serve_page files path)
unfolding serve_page
serve_page-Settles files path text e =
    settled (files (file_name path)) (files (in_directory (file_name path)))
  where
    either : (b : Bool) → Settles files (if b then redirect index_path else not_found)
    either true = (text, home files text e)
    either false = _

    settled : (a b : Option Str) → Settles files (found_page (file_name path) a b)
    settled (some x) b = _
    settled none (some x) = _
    settled none none =
        either (is_empty (ext (file_name path)) || str_eq (ext (file_name path)) (codes ".html"))
