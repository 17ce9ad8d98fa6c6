-- ===== src/Web/Tests.antt =====
-- A console of two files.
use easy_docker_proxy.Base.{◌≡◌, refl, Option, none, some, Str, codes, str_eq, if◌then◌else◌}
use easy_docker_proxy.Web.{
  page, redirect, not_found, index_path, file_name, clean, ext, content_type, serve_page,
}
use easy_docker_proxy.Web.Pages.{Settles, serve_page-Settles}

abbrev files : Str → Option Str
files name =
    if str_eq name (codes "index.html")
    then some (codes "home")
    else if str_eq name (codes "css/app.css")
    then some (codes "style")
    else none

pages :
    (serve_page files (codes "/stats") ≡ page (codes "text/html; charset=utf-8") (codes "home"))
    × (serve_page files (codes "/stats/css/../css//app.css")
        ≡ page (codes "text/css; charset=utf-8") (codes "style"))
    × (serve_page files (codes "/stats/../../secret") ≡ redirect index_path)
    × (serve_page files (codes "/stats/app.js") ≡ not_found)
    × (serve_page files (codes "/stats/users.html") ≡ redirect index_path)
unfolding serve_page file_name clean ext content_type
pages = (refl, refl, refl, refl, refl)

serve_page-Settles_example : Settles files (serve_page files (codes "/stats/users"))
serve_page-Settles_example = serve_page-Settles files (codes "/stats/users") (codes "home") refl
