-- ===== src/Merging/Accept.antt =====
-- internal/pipeline/merging.go, fileAcceptor: the files of a directory that are merged.
use achgateway.Base.{Text, txt, split, text_contains, contains, List, if◌then◌else◌}
use achgateway.Ach.{FileAcceptance, accept_file, skip_file}

unfoldable pub file_acceptor : List Text → Text → FileAcceptance
unfolding text_contains contains split
file_acceptor canceled path =
    if text_contains path (txt ".canceled")
    then skip_file
    else if contains canceled (split path).1
    then skip_file
    else if text_contains path (txt ".ach")
    then accept_file
    else skip_file
