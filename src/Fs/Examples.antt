-- ===== src/Fs/Examples.antt =====
-- The theorems on the file system, tried on a card whose sectors are kept by their addresses.
use ucas_os.Common.{refl, arith}
use ucas_os.Common.Int.{pos}
use ucas_os.Fs.{iarray_alloc, darray_alloc}
use ucas_os.Fs.Sample.{card, fs}
use ucas_os.Fs.Maps.{Allocated, iarray_alloc-Allocated}
use ucas_os.Fs.Opened.{Opened}
use ucas_os.Fs.Mount.{mkfs, mount}
use ucas_os.Fs.Formatted.{Fresh, mount-Fresh}
use ucas_os.Fs.Blocks.{BlockAllocated, darray_alloc-BlockAllocated}
use ucas_os.Fs.Files.{fread}
use ucas_os.Fs.Reads.{ReadFile, fread-ReadFile}

iarray_alloc-Allocated_example : Allocated card fs (iarray_alloc card fs)
iarray_alloc-Allocated_example = iarray_alloc-Allocated card fs

darray_alloc-BlockAllocated_example : BlockAllocated card fs (darray_alloc card fs)
darray_alloc-BlockAllocated_example =
    darray_alloc-BlockAllocated card fs (ground arith) (λ i h. refl)

fread-ReadFile_example : ReadFile 1 600 fs (fread card (pos 1) 600 fs)
fread-ReadFile_example = fread-ReadFile card 1 600 fs (ground arith)

mount-Fresh_example :
    Fresh card (mount card (record fs { disk = mkfs card (λ i. 9) (λ i. 9) (λ i. 9) fs.disk }))
mount-Fresh_example = mount-Fresh card (λ i. 9) (λ i. 9) (λ i. 9) fs fs.disk
