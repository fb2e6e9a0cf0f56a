-- ===== src/Hls.antt =====
-- The HLS segmenter, playlists and DVR window of pkg/streaming/hls. Buffer, Writer, Pes and Tables are
-- the packets of MPEG-TS segments; Headers, Sections, Fragments, Numbering and Segments say what
-- they are. Playlist and Variants are the two playlists, Render their text, Reading and Uris what a
-- reader finds in it, and Dvr is the window.
mod Buffer
mod Writer
mod Pes
mod Tables
mod Headers
mod Sections
mod Fragments
mod Numbering
mod Segments
mod Playlist
mod Dvr
mod Window
mod Lookup
mod Fresh
mod Export
mod Variants
mod Sorting
mod Render
mod Reading
mod Uris
mod ReadingTests
mod Tests
