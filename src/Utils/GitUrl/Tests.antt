-- ===== src/Utils/GitUrl/Tests.antt =====
-- Inputs of the examples of internal/utils/utils.go, and the examples.
use mintmaker.Base.{Str, codes, Result, ok, ◌≡◌, refl}
use mintmaker.Utils.GitUrl.{Url, get_git_host, get_git_platform}
use mintmaker.Utils.GitUrl.Facts.{Classified, get_git_host-ssh, get_git_platform-Classified}

abbrev parse : Str → Result Url
parse url =
    ok (record { scheme = codes "https"; hostname = codes "gitlab.com"; path = codes "/org/repo" })

get_git_host-ssh_example :
    get_git_host parse (codes "git@gitlab.com:org/repo.git") ≡ ok (codes "gitlab.com")
get_git_host-ssh_example =
    get_git_host-ssh parse (codes "git") (codes "gitlab.com") (codes "org/repo.git")
      (refl, (refl, (refl, tt))) (refl, (refl, (refl, tt)))
      (refl, (refl, (refl, (refl, (refl, (refl, (refl, (refl, (refl, (refl, tt))))))))))

get_git_platform-Classified_example :
    Classified
      (get_git_host parse (codes "https://gitlab.com/org/repo"))
      (get_git_platform parse (codes "https://gitlab.com/org/repo"))
get_git_platform-Classified_example =
    get_git_platform-Classified parse (codes "https://gitlab.com/org/repo")
