-- ===== src/Text/Messages.antt =====
-- The table of error messages of lib/printfmt.c, as character codes.
use arch.Base.{ℕ, Option, none, some, List, [], ◌∷◌, ◌==◌, if◌then◌else◌}

-- `error_string[err]`, and none for NULL and from MAXERROR on
abbrev pub error_string : ℕ → Option (List ℕ)
error_string err =
    -- unspecified error
    if err == 1
    then some (
        117 ∷ 110 ∷ 115 ∷ 112 ∷ 101 ∷ 99 ∷ 105 ∷ 102 ∷ 105 ∷ 101 ∷ 100 ∷ 32 ∷ 101 ∷ 114 ∷ 114 ∷ 111
        ∷ 114 ∷ [])
    -- bad environment
    else if err == 2
    then some
        (98 ∷ 97 ∷ 100 ∷ 32 ∷ 101 ∷ 110 ∷ 118 ∷ 105 ∷ 114 ∷ 111 ∷ 110 ∷ 109 ∷ 101 ∷ 110 ∷ 116 ∷ [])
    -- invalid parameter
    else if err == 3
    then some (
        105 ∷ 110 ∷ 118 ∷ 97 ∷ 108 ∷ 105 ∷ 100 ∷ 32 ∷ 112 ∷ 97 ∷ 114 ∷ 97 ∷ 109 ∷ 101 ∷ 116 ∷ 101
        ∷ 114 ∷ [])
    -- out of memory
    else if err == 4
    then some (111 ∷ 117 ∷ 116 ∷ 32 ∷ 111 ∷ 102 ∷ 32 ∷ 109 ∷ 101 ∷ 109 ∷ 111 ∷ 114 ∷ 121 ∷ [])
    -- out of environments
    else if err == 5
    then some (
        111 ∷ 117 ∷ 116 ∷ 32 ∷ 111 ∷ 102 ∷ 32 ∷ 101 ∷ 110 ∷ 118 ∷ 105 ∷ 114 ∷ 111 ∷ 110 ∷ 109 ∷ 101
        ∷ 110 ∷ 116 ∷ 115 ∷ [])
    -- segmentation fault
    else if err == 6
    then some (
        115 ∷ 101 ∷ 103 ∷ 109 ∷ 101 ∷ 110 ∷ 116 ∷ 97 ∷ 116 ∷ 105 ∷ 111 ∷ 110 ∷ 32 ∷ 102 ∷ 97 ∷ 117
        ∷ 108 ∷ 116 ∷ [])
    -- env is not recving
    else if err == 7
    then some (
        101 ∷ 110 ∷ 118 ∷ 32 ∷ 105 ∷ 115 ∷ 32 ∷ 110 ∷ 111 ∷ 116 ∷ 32 ∷ 114 ∷ 101 ∷ 99 ∷ 118 ∷ 105
        ∷ 110 ∷ 103 ∷ [])
    -- unexpected end of file
    else if err == 8
    then some (
        117 ∷ 110 ∷ 101 ∷ 120 ∷ 112 ∷ 101 ∷ 99 ∷ 116 ∷ 101 ∷ 100 ∷ 32 ∷ 101 ∷ 110 ∷ 100 ∷ 32 ∷ 111
        ∷ 102 ∷ 32 ∷ 102 ∷ 105 ∷ 108 ∷ 101 ∷ [])
    -- no free space on disk
    else if err == 9
    then some (
        110 ∷ 111 ∷ 32 ∷ 102 ∷ 114 ∷ 101 ∷ 101 ∷ 32 ∷ 115 ∷ 112 ∷ 97 ∷ 99 ∷ 101 ∷ 32 ∷ 111 ∷ 110
        ∷ 32 ∷ 100 ∷ 105 ∷ 115 ∷ 107 ∷ [])
    -- too many files are open
    else if err == 10
    then some (
        116 ∷ 111 ∷ 111 ∷ 32 ∷ 109 ∷ 97 ∷ 110 ∷ 121 ∷ 32 ∷ 102 ∷ 105 ∷ 108 ∷ 101 ∷ 115 ∷ 32 ∷ 97
        ∷ 114 ∷ 101 ∷ 32 ∷ 111 ∷ 112 ∷ 101 ∷ 110 ∷ [])
    -- file or block not found
    else if err == 11
    then some (
        102 ∷ 105 ∷ 108 ∷ 101 ∷ 32 ∷ 111 ∷ 114 ∷ 32 ∷ 98 ∷ 108 ∷ 111 ∷ 99 ∷ 107 ∷ 32 ∷ 110 ∷ 111
        ∷ 116 ∷ 32 ∷ 102 ∷ 111 ∷ 117 ∷ 110 ∷ 100 ∷ [])
    -- invalid path
    else if err == 12
    then some (105 ∷ 110 ∷ 118 ∷ 97 ∷ 108 ∷ 105 ∷ 100 ∷ 32 ∷ 112 ∷ 97 ∷ 116 ∷ 104 ∷ [])
    -- file already exists
    else if err == 13
    then some (
        102 ∷ 105 ∷ 108 ∷ 101 ∷ 32 ∷ 97 ∷ 108 ∷ 114 ∷ 101 ∷ 97 ∷ 100 ∷ 121 ∷ 32 ∷ 101 ∷ 120 ∷ 105
        ∷ 115 ∷ 116 ∷ 115 ∷ [])
    -- file is not a valid executable
    else if err == 14
    then some (
        102 ∷ 105 ∷ 108 ∷ 101 ∷ 32 ∷ 105 ∷ 115 ∷ 32 ∷ 110 ∷ 111 ∷ 116 ∷ 32 ∷ 97 ∷ 32 ∷ 118 ∷ 97
        ∷ 108 ∷ 105 ∷ 100 ∷ 32 ∷ 101 ∷ 120 ∷ 101 ∷ 99 ∷ 117 ∷ 116 ∷ 97 ∷ 98 ∷ 108 ∷ 101 ∷ [])
    -- operation not supported
    else if err == 15
    then some (
        111 ∷ 112 ∷ 101 ∷ 114 ∷ 97 ∷ 116 ∷ 105 ∷ 111 ∷ 110 ∷ 32 ∷ 110 ∷ 111 ∷ 116 ∷ 32 ∷ 115 ∷ 117
        ∷ 112 ∷ 112 ∷ 111 ∷ 114 ∷ 116 ∷ 101 ∷ 100 ∷ [])
    else none
